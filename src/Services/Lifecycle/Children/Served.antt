-- ===== src/Services/Lifecycle/Children/Served.antt =====
-- integrations/services/internal/controllers/servicelifecycle_controller.go: the trigger of a
-- lifecycle at the webhook of triggers.
use Prim.Native.String
use wa8s.Prelude.{
  ◌≡◌, ◌≢◌, inl, inr, refl, sym, String, [], some, arith, eq_iff, nonempty, if◌then◌else◌, ◌==◌,
}
use mathlib.Core.Path.{subst}
use wa8s.Field.{new_path}
use wa8s.Apis.Meta.{
  Context, ObjectMeta, stash_resource, lookup, api_version_for_kind, components_v1alpha1,
}
use wa8s.Apis.Registries.{ServiceAccountReference, default_service_account_reference}
use wa8s.Apis.Registries.Laws.{InScope, default_repository_reference_valid}
use wa8s.Apis.Components.{default_component_reference, default_generic_component_spec}
use wa8s.Apis.Components.Laws.{IsValidComponentReference}
use wa8s.Apis.Containers.{
  Trigger, default_trigger, default_generic_container_spec, validate_create_trigger,
  external_repository,
}
use wa8s.Apis.Containers.Laws.{validate_trigger-nil_iff}
use wa8s.Apis.Services.Lifecycle.{ServiceLifecycleSpec, validate_create_service_lifecycle}
use wa8s.Services.Binding.ClientComponent.{no_reference}
use wa8s.Services.Lifecycle.{ServiceLifecycle}
use wa8s.Services.Lifecycle.Children.{MergeMaps, TriggerChild, child_namespace, desired_trigger}
use wa8s.Services.Lifecycle.Children.Admitted.{
  child_namespace_given, InScope-child, IsDefaulted, lifecycle_valid,
}

-- The reference to the composition, which names its kind and its name only.
composition_reference_valid :
    (ctx : Context) (made : ObjectMeta) (name : String)
    → made.namespace ≢ ""
    → name ≢ ""
    → let ctx' = stash_resource ctx made in
      IsValidComponentReference ctx' (
        default_component_reference ctx'
          (record no_reference { kind = "Composition"; name = name }))
unfolding default_component_reference api_version_for_kind lookup
composition_reference_valid ctx made name placed named = (
  (
    (nonempty components_v1alpha1 refl, nonempty "Composition" refl),
    inr (refl, (placed, inr (inl refl))),
  ),
  ground (arith, eq_iff name ""),
)

account_valid :
    (ctx ctx' : Context) (r : ServiceAccountReference)
    → InScope ctx r.namespace × (r.name ≢ "")
    → (InScope ctx r.namespace → InScope ctx' r.namespace)
    → let d = default_service_account_reference ctx' r in InScope ctx' d.namespace × (d.name ≢ "")
unfolding default_service_account_reference
account_valid ctx ctx' r (scope, named) lift =
    let kept : (if r.namespace == "" then ctx'.resource.namespace else r.namespace) ≡ r.namespace =
      ground (arith, scope.0, eq_iff r.namespace "") in
    (
      subst (λ (x : String). InScope ctx' x) (sym kept) (lift scope),
      ground (arith, named, eq_iff r.name ""),
    )

-- The trigger that serves a lifecycle is admitted by the webhook of triggers if the webhook of
-- lifecycles admitted the lifecycle, of either scope, and the stashed composition has a name.
pub desired_trigger-admitted :
    (merge_maps : MergeMaps) (key composition : String) (ctx : Context) (r : ServiceLifecycle)
    (given : ServiceLifecycleSpec) (c : TriggerChild)
    → IsDefaulted ctx r given
    → validate_create_service_lifecycle ctx r.metadata given ≡ []
    → composition ≢ ""
    → desired_trigger merge_maps key ctx r (some composition) ≡ some c
    → validate_create_trigger ctx c.trigger ≡ []
unfolding lookup desired_trigger validate_create_trigger default_trigger
    default_generic_container_spec default_generic_component_spec
desired_trigger-admitted merge_maps key composition ctx r given c d h named e =
    let made : ObjectMeta = record {
      namespace = child_namespace ctx r.metadata.namespace;
      name = String.◌++◌ r.metadata.name "-lifecycle";
      annotations = [];
    } in
    let built : Trigger = record {
      metadata = made;
      spec = record r.spec.container {
        ref = record no_reference { kind = "Composition"; name = composition };
      };
    } in
    let same : c.trigger ≡ built = ground (arith, e) in
    let ctx' = stash_resource ctx made in
    let valid = (lifecycle_valid ctx r given d h).0 in
    rw same (
      (validate_trigger-nil_iff ctx' (new_path "") (default_trigger ctx built)).1 (
        inl refl,
        (
          (
            (
              default_repository_reference_valid
                  (external_repository r.spec.container.generic.repository_ref),
              composition_reference_valid ctx made composition
                  (child_namespace_given ctx r.metadata.namespace) named,
            ),
            account_valid (stash_resource ctx r.metadata) ctx' r.spec.container.service_account_ref
                valid.0.1 (InScope-child ctx r.metadata made _ refl),
          ),
          valid.1,
        ),
      ))
