-- ===== src/Services/Binding/ClientComponent/Admitted.antt =====
-- integrations/services/internal/controllers/servicebinding_controller.go: the composition that the
-- controller creates, at the webhook of compositions.
use wa8s.Prelude.{
  true, false, ◌≡◌, ◌≢◌, ◌↔◌, ◌⊎◌, inl, inr, refl, sym, String, List, [], arith, eq_iff, nonempty,
  if◌then◌else◌, ◌==◌,
}
use mathlib.Core.Path.{subst}
use wa8s.Field.{FieldPath, child, nil_append}
use wa8s.Apis.Meta.{
  Context, stash_resource, validate_common_annotations-nil_iff, services_v1alpha1,
  components_v1alpha1, api_version_for_kind, lookup,
}
use wa8s.Apis.Registries.Laws.{default_repository_reference_valid}
use wa8s.Apis.Components.{default_component_reference, default_generic_component_spec}
use wa8s.Apis.Components.Laws.{
  IsScoped, IsValidComponentReference, validate_generic_component_spec-nil_iff,
}
use wa8s.Apis.Components.ConfigStore.{default_generic_config_store_spec, default_value}
use wa8s.Apis.Components.Composition.{
  default_composition, validate_composition, default_generic_composition_spec, default_sources,
  default_composition_spec, validate_composition_spec,
}
use wa8s.Apis.Components.Composition.Laws.{
  IsValidComposition, one_source, validate_generic_composition_spec-nil_iff,
}
use wa8s.Apis.Services.Instance.{ServiceLifecycleReference, IsValidLifecycleReference}
use wa8s.Services.Binding.{Binding}
use wa8s.Services.Binding.ClientComponent.{
  ref_source, no_sources, binding_id_source, desired_client, client_composition,
  credentials_composition, cluster_component, lifecycle_reference,
}

-- The namespace that the defaulted reference to the lifecycle has.
abbrev pub lifecycle_namespace : Context → ServiceLifecycleReference → String
lifecycle_namespace ctx ref =
    if ref.kind == "ClusterServiceLifecycle"
    then ref.namespace
    else if ref.namespace == ""
    then ctx.resource.namespace
    else ref.namespace

pub cluster_component_valid :
    (ctx : Context) (name : String)
    → name ≢ ""
    → IsValidComponentReference ctx (default_component_reference ctx (cluster_component name))
unfolding default_component_reference api_version_for_kind
cluster_component_valid ctx name h = (
  ((nonempty components_v1alpha1 refl, nonempty "ClusterComponent" refl), inl refl),
  ground (arith, eq_iff name ""),
)

abbrev IsLifecycleKind : String → Type 0
IsLifecycleKind k = (k ≡ "ServiceLifecycle") ⊎ (k ≡ "ClusterServiceLifecycle")

known_kind : (k : String) → IsLifecycleKind k → k ≢ ""
known_kind k (inl e) = rw e (nonempty _ refl)
known_kind k (inr e) = rw e (nonempty _ refl)

lifecycle_kind :
    (ctx : Context) (ref : ServiceLifecycleReference)
    → IsLifecycleKind ref.kind
    → (default_component_reference ctx (lifecycle_reference ref)).kind ≡ ref.kind
unfolding default_component_reference
lifecycle_kind ctx ref (inl e) = rw e refl
lifecycle_kind ctx ref (inr e) = rw e refl

lifecycle_namespace_lem :
    (ctx : Context) (ref : ServiceLifecycleReference)
    → IsLifecycleKind ref.kind
    → (default_component_reference ctx (lifecycle_reference ref)).namespace
      ≡ lifecycle_namespace ctx ref
unfolding default_component_reference
lifecycle_namespace_lem ctx ref (inl e) = rw e (ground (arith, eq_iff ref.namespace ""))
lifecycle_namespace_lem ctx ref (inr e) = rw e (ground (arith, eq_iff ref.namespace ""))

lifecycle_reference_valid_iff :
    (ctx : Context) (ref : ServiceLifecycleReference)
    → IsValidLifecycleReference ref
    → IsValidComponentReference ctx (default_component_reference ctx (lifecycle_reference ref))
      ↔ IsScoped ctx ref.kind (lifecycle_namespace ctx ref)
unfolding default_component_reference
lifecycle_reference_valid_iff ctx ref (k, n) =
    let d = default_component_reference ctx (lifecycle_reference ref) in
    let kind = lifecycle_kind ctx ref k in
    let namespace = lifecycle_namespace_lem ctx ref k in
    let named : ref.kind ≢ "" = known_kind ref.kind k in
    (
      λ v.
          subst (λ (x : String). IsScoped ctx ref.kind x) namespace
            (subst (λ (x : String). IsScoped ctx x d.namespace) kind v.0.1),
      λ scoped.
          let back = subst (λ (x : String). IsScoped ctx ref.kind x) (sym namespace) scoped in
          (
            (
              (nonempty services_v1alpha1 refl, rw kind named),
              subst (λ (x : String). IsScoped ctx x d.namespace) (sym kind) back,
            ),
            ground (arith, eq_iff ref.name ""),
          ),
    )

credentials_valid :
    (ctx : Context) (id : String)
    → IsValidComposition ctx (default_generic_composition_spec ctx (credentials_composition id))
unfolding default_generic_composition_spec default_sources default_generic_config_store_spec
    default_value
credentials_valid ctx id =
    let config = cluster_component_valid ctx "wa8s-services-credential-config" (nonempty _ refl) in
    let store = cluster_component_valid ctx "wa8s-services-credential-store" (nonempty _ refl) in
    (
      (inl (refl, refl), ground arith),
      (
        (
          (nonempty _ refl, ((config, tt), tt)),
          (one_source
              (default_sources ctx
                (ref_source (cluster_component "wa8s-services-credential-config")))
              false refl),
        ),
        (
          (
            (nonempty _ refl, ((store, tt), tt)),
            (one_source
                (default_sources ctx
                  (ref_source (cluster_component "wa8s-services-credential-store")))
                false refl),
          ),
          (
            (
              (nonempty _ refl, ((tt, ((((nonempty _ refl, inr refl), tt), tt), tt)), tt)),
              (one_source (default_sources ctx (binding_id_source id)) false refl),
            ),
            tt,
          ),
        ),
      ),
    )

client_valid_iff :
    (ctx : Context) (ref : ServiceLifecycleReference) (id : String)
    → IsValidLifecycleReference ref
    → IsValidComposition ctx (default_generic_composition_spec ctx (client_composition ref id))
      ↔ IsScoped ctx ref.kind (lifecycle_namespace ctx ref)
unfolding default_generic_composition_spec default_sources
client_valid_iff ctx ref id h =
    let iff = lifecycle_reference_valid_iff ctx ref h in
    (
      λ valid. iff.0 valid.1.0.0.1.0.0,
      λ scoped. (
        (inl (refl, refl), ground arith),
        (
          (
            (nonempty _ refl, ((iff.1 scoped, tt), tt)),
            (one_source (default_sources ctx (ref_source (lifecycle_reference ref))) false refl),
          ),
          (
            (
              ((nonempty _ refl, ((tt, tt), tt)), credentials_valid ctx id),
              (one_source (default_sources ctx no_sources) true refl),
            ),
            tt,
          ),
        ),
      ),
    )

-- The composition that the controller creates for a binding and a valid reference to a lifecycle is
-- admitted, once defaulted, exactly when the kind of the lifecycle is cluster scoped or its
-- namespace, with the default, is in scope of the binding.
pub desired_client-admitted_iff :
    (merge_maps : List (String × String) → List (String × String) → List (String × String))
    (ctx : Context) (ref : ServiceLifecycleReference) (b : Binding) (p : FieldPath)
    → IsValidLifecycleReference ref
    → let composition = (desired_client merge_maps ref b).composition in
      let ctx' = stash_resource ctx composition.metadata in
      (validate_composition ctx' p (default_composition ctx composition) ≡ [])
      ↔ IsScoped ctx' ref.kind (lifecycle_namespace ctx' ref)
unfolding lookup desired_client default_composition default_composition_spec
    default_generic_component_spec validate_composition validate_composition_spec
desired_client-admitted_iff merge_maps ctx ref b p h =
    let composition = (desired_client merge_maps ref b).composition in
    let ctx' = stash_resource ctx composition.metadata in
    let annotations = validate_common_annotations-nil_iff p composition.metadata in
    let repository =
      validate_generic_component_spec-nil_iff (child p "spec")
        (default_composition ctx composition).spec.generic in
    let parts = nil_append annotations (
      nil_append repository (
        validate_generic_composition_spec-nil_iff ctx' (child p "spec")
          (default_composition ctx composition).spec.composition)) in
    let iff = client_valid_iff ctx' ref b.service_binding_id h in
    (
      λ e. iff.0 (parts.0 e).1.1,
      λ scoped. parts.1 (
        inl refl,
        (default_repository_reference_valid (record { kind = ""; name = "" }), iff.1 scoped),
      ),
    )
