-- ===== src/Apis/Components.antt =====
-- apis/components/v1alpha1: component_webhook.go and duck_webhook.go, components and references to
-- them. A `Default` method returns nil on every path, so it is a function to the new value.
pub mod ConfigStore
pub mod Composition
pub mod Laws
pub mod Admission
use wa8s.Prelude.{
  String, not, ◌&&◌, [], ◌∷◌, ◌++◌, Option, none, some, if◌then◌else◌, ◌==◌, starts_with, is_some,
}
use wa8s.Field.{FieldPath, ErrorList, new_path, child, require, pick_one}
use wa8s.Apis.Meta.{
  ObjectMeta, Context, stash_resource, api_version_for_kind, validate_common_annotations,
}
use wa8s.Apis.Registries.{
  ServiceAccountReference, RepositoryReference, check_namespace, default_service_account_reference,
  validate_service_account_reference, default_repository_reference, validate_repository_reference,
}

pub record ComponentReference : Type 0 where
  pub api_version : String
  pub kind : String
  pub namespace : String
  pub name : String

-- Each field is defaulted from the ones above it.
unfoldable pub default_component_reference : Context → ComponentReference → ComponentReference
default_component_reference ctx r =
    let kind = if r.kind == "" then "Component" else r.kind in
    record {
      api_version = if r.api_version == "" then api_version_for_kind kind else r.api_version;
      kind = kind;
      namespace =
          if r.namespace == "" && not (starts_with kind "Cluster")
          then ctx.resource.namespace
          else r.namespace;
      name = if r.name == "" then ctx.resource.name else r.name;
    }

-- A kind that begins with `Cluster` is taken for a cluster scoped one.
abbrev pub check_scoped_namespace : Context → FieldPath → String → String → String → ErrorList
check_scoped_namespace ctx p kind namespace message =
    if starts_with kind "Cluster" then [] else check_namespace ctx p namespace message

unfoldable pub validate_component_reference : Context → FieldPath → ComponentReference → ErrorList
validate_component_reference ctx p r =
    require r.api_version (child p "apiVersion")
    ++ require r.kind (child p "kind")
    ++ check_scoped_namespace ctx p r.kind r.namespace "cross namespace components are not allowed"
    ++ require r.name (child p "name")

pub record OciReference : Type 0 where
  pub image : String
  pub service_account_ref : ServiceAccountReference

unfoldable pub default_oci_reference : Context → OciReference → OciReference
unfolding default_service_account_reference
default_oci_reference ctx r = record r {
  service_account_ref = default_service_account_reference ctx r.service_account_ref;
}

unfoldable pub validate_oci_reference : Context → FieldPath → OciReference → ErrorList
validate_oci_reference ctx p r =
    require r.image (child p "image")
    ++ validate_service_account_reference ctx (child p "serviceAccountRef") r.service_account_ref

-- `if r.X != nil { errs = append(errs, r.X.Validate(...)...) }`
abbrev pub validate_present {ℓ} : {A : Type ℓ} → (A → ErrorList) → Option A → ErrorList
validate_present v none = []
validate_present v (some a) = v a

abbrev pub default_present {ℓ} : {A : Type ℓ} → (A → A) → Option A → Option A
default_present d none = none
default_present d (some a) = some (d a)

-- duck_webhook.go
pub record GenericComponentSpec : Type 0 where
  pub repository_ref : RepositoryReference

unfoldable pub default_generic_component_spec : GenericComponentSpec → GenericComponentSpec
unfolding default_repository_reference
default_generic_component_spec r = record {
  repository_ref = default_repository_reference r.repository_ref;
}

unfoldable pub validate_generic_component_spec : FieldPath → GenericComponentSpec → ErrorList
validate_generic_component_spec p r =
    validate_repository_reference (child p "repositoryRef") r.repository_ref

pub record ComponentSpec : Type 0 where
  pub generic : GenericComponentSpec
  pub oci : Option OciReference
  pub ref : Option ComponentReference

unfoldable pub default_component_spec : Context → ComponentSpec → ComponentSpec
unfolding default_generic_component_spec default_oci_reference default_component_reference
default_component_spec ctx r = record {
  generic = default_generic_component_spec r.generic;
  oci = default_present (default_oci_reference ctx) r.oci;
  ref = default_present (default_component_reference ctx) r.ref;
}

unfoldable pub validate_component_spec : Context → FieldPath → ComponentSpec → ErrorList
validate_component_spec ctx p r =
    validate_generic_component_spec p r.generic
    ++ validate_present (validate_oci_reference ctx (child p "oci")) r.oci
    ++ validate_present (validate_component_reference ctx (child p "ref")) r.ref
    ++ pick_one p (("oci", is_some r.oci) ∷ ("ref", is_some r.ref) ∷ [])

pub record Component : Type 0 where
  pub metadata : ObjectMeta
  pub spec : ComponentSpec

unfoldable pub default_component : Context → Component → Component
unfolding default_component_spec
default_component ctx r = record r {
  spec = default_component_spec (stash_resource ctx r.metadata) r.spec;
}

unfoldable pub validate_component : Context → FieldPath → Component → ErrorList
validate_component ctx p r =
    validate_common_annotations p r.metadata ++ validate_component_spec ctx (child p "spec") r.spec

-- `ValidateCreate`: the errors handed to `ToAggregate`. `ValidateUpdate` does the same to the new
-- object, and the methods of `ClusterComponent` are the same too.
unfoldable pub validate_create_component : Context → Component → ErrorList
validate_create_component ctx obj =
    let obj' = default_component ctx obj in
    validate_component (stash_resource ctx obj'.metadata) (new_path "") obj'
