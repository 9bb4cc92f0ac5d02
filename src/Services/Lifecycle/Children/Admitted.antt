-- ===== src/Services/Lifecycle/Children/Admitted.antt =====
-- integrations/services/internal/controllers/servicelifecycle_controller.go: the children of a
-- lifecycle at the webhooks of compositions and triggers.
use wa8s.Prelude.{
  ◌≡◌, true, false, ◌≢◌, inl, inr, refl, sym, String, [], arith, eq_iff, nonempty, eq_cases,
}
use mathlib.Core.Path.{subst}
use wa8s.Field.{FieldPath, new_path, child, nil_append}
use wa8s.Apis.Meta.{
  Context, ObjectMeta, stash_resource, wa8s_namespace, lookup, validate_common_annotations-nil_iff,
}
use wa8s.Apis.Registries.Laws.{InScope, default_repository_reference_valid}
use wa8s.Apis.Components.{
  ComponentReference, default_component_reference, default_generic_component_spec,
}
use wa8s.Apis.Components.Laws.{
  IsScoped, IsValidComponentReference, validate_generic_component_spec-nil_iff,
}
use wa8s.Apis.Components.Composition.{
  default_composition, validate_composition, default_generic_composition_spec, default_sources,
  default_composition_spec, validate_composition_spec,
}
use wa8s.Apis.Components.Composition.Laws.{
  IsValidComposition, one_source, validate_generic_composition_spec-nil_iff,
}
use wa8s.Apis.Services.Lifecycle.{
  ServiceLifecycleSpec, default_service_lifecycle_spec, validate_create_service_lifecycle,
  validate_service_lifecycle-nil_iff, IsValidLifecycleSpec,
}
use wa8s.Services.Binding.ClientComponent.Admitted.{cluster_component_valid}
use wa8s.Services.Binding.ClientComponent.{ref_source, no_sources, cluster_component}
use wa8s.Services.Lifecycle.{ServiceLifecycle}
use wa8s.Services.Lifecycle.Children.{MergeMaps, child_namespace, host_composition, desired_host}

namespace_of_wa8s : (ctx : Context) → wa8s_namespace ctx ≢ ""
namespace_of_wa8s ctx = ground (arith, eq_iff ctx.env_namespace "", eq_iff "wa8s-system" "")

pub child_namespace_given : (ctx : Context) (ns : String) → child_namespace ctx ns ≢ ""
child_namespace_given ctx ns = elim (eq_cases ns "") [
  | inl (e, _) ↦ rw e (namespace_of_wa8s ctx)
  | inr (e, given) ↦ rw e given
]

-- What is in scope of a resource is in scope of its child.
pub InScope-child :
    (ctx : Context) (owner made : ObjectMeta) (ns : String)
    → made.namespace ≡ child_namespace ctx owner.namespace
    → InScope (stash_resource ctx owner) ns
    → InScope (stash_resource ctx made) ns
InScope-child ctx owner made ns e (given, scope) = elim (eq_cases owner.namespace "") [
  | inl (open_, _) ↦ (given, inr (inr (rw open_ at e)))
  | inr (named, is_named) ↦
      let same : made.namespace ≡ owner.namespace = rw named at e in
      (
        given,
        elim scope [
          | inl none_ ↦ absurd (is_named none_)
          | inr (inl own) ↦ inr (inl (rw same own))
          | inr (inr wa8s) ↦ inr (inr (rw same wa8s))
        ],
      )
]

IsScoped-child :
    (ctx : Context) (owner made : ObjectMeta) (kind ns : String)
    → made.namespace ≡ child_namespace ctx owner.namespace
    → IsScoped (stash_resource ctx owner) kind ns
    → IsScoped (stash_resource ctx made) kind ns
IsScoped-child ctx owner made kind ns e (inl cluster) = inl cluster
IsScoped-child ctx owner made kind ns e (inr (scoped, scope)) =
    inr (scoped, InScope-child ctx owner made ns e scope)

-- Defaulting leaves a valid reference alone, for any holder.
default_component_reference_of_valid :
    (ctx ctx' : Context) (r : ComponentReference)
    → IsValidComponentReference ctx r
    → default_component_reference ctx' r ≡ r
unfolding default_component_reference
default_component_reference_of_valid ctx ctx' r (((v, k), inl cluster), n) =
    ground (arith, cluster, eq_iff r.kind "", eq_iff r.api_version "", eq_iff r.name "")
default_component_reference_of_valid ctx ctx' r (((v, k), inr (scoped, scope)), n) = ground (
  arith,
  scope.0,
  eq_iff r.kind "",
  eq_iff r.api_version "",
  eq_iff r.name "",
  eq_iff r.namespace "",
)

pub IsValidComponentReference-child :
    (ctx : Context) (owner made : ObjectMeta) (r : ComponentReference)
    → made.namespace ≡ child_namespace ctx owner.namespace
    → IsValidComponentReference (stash_resource ctx owner) r
    → IsValidComponentReference
        (stash_resource ctx made)
        (default_component_reference (stash_resource ctx made) r)
IsValidComponentReference-child ctx owner made r e valid =
    let ctx' = stash_resource ctx made in
    let same = default_component_reference_of_valid (stash_resource ctx owner) ctx' r valid in
    let ((given, scope), named) = valid in
    subst (λ (x : ComponentReference). IsValidComponentReference ctx' x) (sym same)
      ((given, IsScoped-child ctx owner made r.kind r.namespace e scope), named)

host_valid :
    (ctx : Context) (ref : ComponentReference)
    → IsValidComponentReference ctx (default_component_reference ctx ref)
    → IsValidComposition ctx (default_generic_composition_spec ctx (host_composition ref))
unfolding default_generic_composition_spec default_sources
host_valid ctx ref valid =
    let host = cluster_component_valid ctx "wa8s-services-lifecycle-host-http" (nonempty _ refl) in
    let admin = cluster_component_valid ctx "wa8s-services-credential-admin" (nonempty _ refl) in
    let logging = cluster_component_valid ctx "wa8s-services-logging" (nonempty _ refl) in
    (
      (inl (refl, refl), ground arith),
      (
        (
          (nonempty _ refl, ((host, tt), tt)),
          (one_source
              (default_sources ctx
                (ref_source (cluster_component "wa8s-services-lifecycle-host-http")))
              false refl),
        ),
        (
          (
            (
              (nonempty _ refl, ((tt, tt), tt)),
              (
                (inl (refl, refl), ground arith),
                (
                  (
                    (nonempty _ refl, ((valid, tt), tt)),
                    (one_source (default_sources ctx (ref_source ref)) false refl),
                  ),
                  (
                    (
                      (nonempty _ refl, ((admin, tt), tt)),
                      (one_source
                          (default_sources ctx
                            (ref_source (cluster_component "wa8s-services-credential-admin")))
                          false refl),
                    ),
                    tt,
                  ),
                ),
              ),
            ),
            (one_source (default_sources ctx no_sources) true refl),
          ),
          (
            (
              (nonempty _ refl, ((logging, tt), tt)),
              (one_source
                  (default_sources ctx (ref_source (cluster_component "wa8s-services-logging")))
                  false refl),
            ),
            tt,
          ),
        ),
      ),
    )

-- The spec of a resource is defaulted before it is reconciled.
abbrev pub IsDefaulted : Context → ServiceLifecycle → ServiceLifecycleSpec → Type 0
IsDefaulted ctx r given =
    r.spec ≡ default_service_lifecycle_spec (stash_resource ctx r.metadata) given

pub lifecycle_valid :
    (ctx : Context) (r : ServiceLifecycle) (given : ServiceLifecycleSpec)
    → IsDefaulted ctx r given
    → validate_create_service_lifecycle ctx r.metadata given ≡ []
    → IsValidLifecycleSpec (stash_resource ctx r.metadata) r.spec
unfolding validate_create_service_lifecycle
lifecycle_valid ctx r given e h =
    let ctx' = stash_resource ctx r.metadata in
    rw e
      ((validate_service_lifecycle-nil_iff ctx' (new_path "") r.metadata
          (default_service_lifecycle_spec ctx' given)).0
        h).1

-- The composition that hosts a lifecycle is admitted by the webhook of compositions, once
-- defaulted, if the webhook of lifecycles admitted the lifecycle, of either scope.
pub desired_host-admitted :
    (merge_maps : MergeMaps) (key : String) (ctx : Context) (r : ServiceLifecycle)
    (given : ServiceLifecycleSpec) (p : FieldPath)
    → IsDefaulted ctx r given
    → validate_create_service_lifecycle ctx r.metadata given ≡ []
    → let composition = (desired_host merge_maps key ctx r).composition in
      validate_composition
        (stash_resource ctx composition.metadata)
        p
        (default_composition ctx composition)
      ≡ []
unfolding lookup desired_host default_composition default_composition_spec
    default_generic_component_spec validate_composition validate_composition_spec
desired_host-admitted merge_maps key ctx r given p d h =
    let composition = (desired_host merge_maps key ctx r).composition in
    let ctx' = stash_resource ctx composition.metadata in
    let valid = lifecycle_valid ctx r given d h in
    let ref =
      IsValidComponentReference-child ctx r.metadata composition.metadata r.spec.container.ref refl
        valid.0.0.0.1 in
    (nil_append (validate_common_annotations-nil_iff p composition.metadata) (
        nil_append
          (validate_generic_component_spec-nil_iff (child p "spec")
            (default_composition ctx composition).spec.generic)
          (validate_generic_composition_spec-nil_iff ctx' (child p "spec")
            (default_composition ctx composition).spec.composition))).1
      (
        inl refl,
        (
          default_repository_reference_valid (record { kind = ""; name = "" }),
          host_valid ctx' r.spec.container.ref ref,
        ),
      )
