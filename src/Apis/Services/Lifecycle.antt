-- ===== src/Apis/Services/Lifecycle.antt =====
-- integrations/services/apis/services/v1alpha1/servicelifecycle_webhook.go: lifecycles of services.
-- The methods of `ServiceLifecycle` and `ClusterServiceLifecycle` are the same; a cluster scoped
-- one has no namespace.
use wa8s.Prelude.{◌≡◌, ◌↔◌, [], ◌++◌}
use wa8s.Field.{FieldPath, ErrorList, new_path, child, nil_append}
use wa8s.Apis.Meta.{
  ObjectMeta, Context, stash_resource, validate_common_annotations, HasValidAnnotations,
  validate_common_annotations-nil_iff,
}
use wa8s.Apis.Components.{
  ComponentReference, default_component_reference, validate_component_reference,
}
use wa8s.Apis.Components.Laws.{IsValidComponentReference, validate_component_reference-nil_iff}
use wa8s.Apis.Containers.{
  GenericContainerSpec, default_generic_container_spec, validate_generic_container_spec,
}
use wa8s.Apis.Containers.Laws.{IsValidContainerSpec, validate_generic_container_spec-nil_iff}

pub record ServiceLifecycleSpec : Type 0 where
  pub container : GenericContainerSpec
  pub client_ref : ComponentReference

unfoldable pub default_service_lifecycle_spec :
    Context → ServiceLifecycleSpec → ServiceLifecycleSpec
unfolding default_generic_container_spec default_component_reference
default_service_lifecycle_spec ctx r = record {
  container = default_generic_container_spec ctx r.container;
  client_ref = default_component_reference ctx r.client_ref;
}

unfoldable pub validate_service_lifecycle_spec :
    Context → FieldPath → ServiceLifecycleSpec → ErrorList
validate_service_lifecycle_spec ctx p r =
    validate_generic_container_spec ctx p r.container
    ++ validate_component_reference ctx (child p "clientRef") r.client_ref

unfoldable pub validate_service_lifecycle :
    Context → FieldPath → ObjectMeta → ServiceLifecycleSpec → ErrorList
validate_service_lifecycle ctx p metadata r =
    validate_common_annotations p metadata ++ validate_service_lifecycle_spec ctx (child p "spec") r

-- `ValidateCreate`, and `ValidateUpdate` of the new object, from its metadata and its spec.
unfoldable pub validate_create_service_lifecycle :
    Context → ObjectMeta → ServiceLifecycleSpec → ErrorList
validate_create_service_lifecycle ctx metadata r =
    let ctx' = stash_resource ctx metadata in
    validate_service_lifecycle ctx' (new_path "") metadata (default_service_lifecycle_spec ctx' r)

abbrev pub IsValidLifecycleSpec : Context → ServiceLifecycleSpec → Type 0
IsValidLifecycleSpec ctx r =
    IsValidContainerSpec ctx r.container × IsValidComponentReference ctx r.client_ref

pub validate_service_lifecycle-nil_iff :
    (ctx : Context) (p : FieldPath) (metadata : ObjectMeta) (r : ServiceLifecycleSpec)
    → (validate_service_lifecycle ctx p metadata r ≡ [])
      ↔ (HasValidAnnotations metadata × IsValidLifecycleSpec ctx r)
unfolding validate_service_lifecycle validate_service_lifecycle_spec
validate_service_lifecycle-nil_iff ctx p metadata r =
    nil_append (validate_common_annotations-nil_iff p metadata) (
      nil_append (validate_generic_container_spec-nil_iff ctx (child p "spec") r.container) (
        validate_component_reference-nil_iff ctx (child (child p "spec") "clientRef") r.client_ref))
