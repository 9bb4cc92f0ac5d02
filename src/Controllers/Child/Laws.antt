-- ===== src/Controllers/Child/Laws.antt =====
-- controllers/duck_controller.go: the child component, its annotation and its admission.
use wa8s.Prelude.{
  ◌≡◌, ◌≢◌, ◌↔◌, ◌⊎◌, inl, inr, refl, String, true, List, [], ◌∷◌, none, some, arith, eq_iff,
  Option-cases,
}
use wa8s.Field.{new_path}
use wa8s.Reconcile.{ok, done}
use wa8s.Apis.Meta.{Context, stash_resource, lookup, create_child_annotation}
use wa8s.Apis.Registries.Laws.{default_repository_reference_valid}
use wa8s.Apis.Components.{
  ComponentReference, default_component_reference, validate_create_component, default_component,
  default_component_spec, default_generic_component_spec,
}
use wa8s.Apis.Components.Laws.{validate_component_reference-nil_iff, validate_component-nil_iff}
use wa8s.Apis.Components.Admission.{default_component_reference_valid}
use wa8s.Controllers.Child.{
  ComponentLike, ChildComponent, none_of, child_component_should_exist, desired_child,
  reflect_child, child_of, generic_or_zero,
}

none_of_iff : (os : List String) → (none_of os ≡ true) ↔ (os ≡ [])
unfolding none_of
none_of_iff [] = ground arith
none_of_iff (o ∷ os) = ground arith

-- A child should exist exactly when the annotation is `true`, or it is not `false` and the resource
-- has no owner.
pub child_component_should_exist_iff :
    (r : ComponentLike)
    → let annotation = lookup create_child_annotation r.metadata.annotations in
      (child_component_should_exist r ≡ true)
      ↔ ((annotation ≡ some "true") ⊎ ((annotation ≢ some "false") × (r.owners ≡ [])))
unfolding child_component_should_exist
child_component_should_exist_iff r =
    let annotation = lookup create_child_annotation r.metadata.annotations in
    elim (Option-cases annotation) [
      | inl e ↦ rw e (ground (arith, eq_iff "" "true", eq_iff "" "false", none_of_iff r.owners))
      | inr (a, e) ↦ rw e (ground (arith, eq_iff a "true", eq_iff a "false", none_of_iff r.owners))
    ]

-- The controller asks for no child exactly when it reports a missing child as not needed.
pub desired_child-none_iff :
    (merge_maps : List (String × String) → List (String × String) → List (String × String))
    (gvk : String × String) (key condition : String) (r : ComponentLike)
    → (desired_child merge_maps (ok gvk) key r ≡ ok none)
      ↔ ((reflect_child condition r none none).1 ≡ done)
unfolding desired_child reflect_child
desired_child-none_iff merge_maps gvk key condition r = ground arith

admitted :
    (merge_maps : List (String × String) → List (String × String) → List (String × String))
    (api_version kind key : String) (ctx : Context) (r : ComponentLike)
    → api_version ≢ ""
    → kind ≢ ""
    → r.metadata.namespace ≢ ""
    → r.metadata.name ≢ ""
    → validate_create_component ctx (child_of merge_maps key r (api_version, kind)).component ≡ []
unfolding lookup validate_create_component default_component default_component_spec
    default_generic_component_spec
admitted merge_maps api_version kind key ctx r v k n m =
    let c = (child_of merge_maps key r (api_version, kind)).component in
    let ctx' = stash_resource ctx c.metadata in
    let ref : ComponentReference = record {
      api_version = api_version;
      kind = kind;
      namespace = r.metadata.namespace;
      name = r.metadata.name;
    } in
    let valid =
      (validate_component_reference-nil_iff ctx' (new_path "")
          (default_component_reference ctx' ref)).0
        (default_component_reference_valid ctx' ref m n (inl v) (inr refl) (new_path "")) in
    let repository =
      default_repository_reference_valid (generic_or_zero r.generic).repository_ref in
    (validate_component-nil_iff ctx' (new_path "") (default_component ctx c)).1
      (inl refl, (((repository, tt), valid), inr (refl, refl)))

-- The child that the controller asks for is admitted by the webhook of components, for a resource
-- that has a name and a namespace and whose kind and version are known.
pub desired_child-admitted :
    (merge_maps : List (String × String) → List (String × String) → List (String × String))
    (api_version kind key : String) (ctx : Context) (r : ComponentLike) (c : ChildComponent)
    → api_version ≢ ""
    → kind ≢ ""
    → r.metadata.namespace ≢ ""
    → r.metadata.name ≢ ""
    → desired_child merge_maps (ok (api_version, kind)) key r ≡ ok (some c)
    → validate_create_component ctx c.component ≡ []
unfolding desired_child
desired_child-admitted merge_maps api_version kind key ctx r c v k n m h =
    let same : c ≡ child_of merge_maps key r (api_version, kind) = ground arith in
    rw same (admitted merge_maps api_version kind key ctx r v k n m)
