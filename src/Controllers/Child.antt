-- ===== src/Controllers/Child.antt =====
-- controllers/duck_controller.go: `ComponentChildReconciler` and `ChildComponentShouldExist`.
pub mod Laws
use wa8s.Prelude.{
  String, Bool, true, false, List, [], ◌∷◌, ◌++◌, Option, none, some, if◌then◌else◌, ◌==◌,
}
use wa8s.Reconcile.{
  Mark, ConditionStatus, is_true, is_false, is_unknown, ApiError, Outcome, done, fails, durable,
  transient, Result, ok, err, marked,
}
use wa8s.Apis.Meta.{
  ObjectMeta, lookup, or_empty, create_child_annotation, create_child_true, create_child_false,
}
use wa8s.Apis.Components.{GenericComponentSpec, Component, ComponentReference}

-- A component-like resource: `owners` are its owner references, and `generic` is nil for a resource
-- that has no spec of a component.
pub record ComponentLike : Type 0 where
  pub metadata : ObjectMeta
  pub labels : List (String × String)
  pub owners : List String
  pub generic : Option GenericComponentSpec
  pub marks : List Mark

unfoldable pub none_of : List String → Bool
none_of [] = true
none_of (o ∷ os) = false

-- `ChildComponentShouldExist`: a missing annotation reads as the empty text.
unfoldable pub child_component_should_exist : ComponentLike → Bool
child_component_should_exist r =
    let create_child = or_empty (lookup create_child_annotation r.metadata.annotations) in
    if create_child == create_child_true
    then true
    else if create_child == create_child_false
    then false
    else none_of r.owners

pub record ChildComponent : Type 0 where
  pub labels : List (String × String)
  pub component : Component

abbrev pub no_generic : GenericComponentSpec
no_generic = record { repository_ref = record { kind = ""; name = "" } }

abbrev pub generic_or_zero : Option GenericComponentSpec → GenericComponentSpec
generic_or_zero none = no_generic
generic_or_zero (some g) = g

abbrev pub child_of :
    (List (String × String) → List (String × String) → List (String × String))
    → String
    → ComponentLike
    → String × String
    → ChildComponent
child_of merge_maps key r (api_version, kind) = record {
  labels = merge_maps r.labels ((key, r.metadata.name) ∷ []);
  component = record {
    metadata = record {
      namespace = r.metadata.namespace;
      name = r.metadata.name;
      annotations = [];
    };
    spec = record {
      generic = generic_or_zero r.generic;
      oci = none;
      ref = some (record {
        api_version = api_version;
        kind = kind;
        namespace = r.metadata.namespace;
        name = r.metadata.name;
      });
    };
  };
}

-- `DesiredChild`; `merge_maps` and `kind_of` stand for `reconcilers.MergeMaps` and
-- `GroupVersionKindFor`, the latter with the group and version as one text.
unfoldable pub desired_child :
    (List (String × String) → List (String × String) → List (String × String))
    → Result (String × String)
    → String
    → ComponentLike
    → Result (Option ChildComponent)
unfolding child_component_should_exist
desired_child merge_maps kind_of key r =
    if child_component_should_exist r
    then elim kind_of [ err e ↦ err e | ok gvk ↦ ok (some (child_of merge_maps key r gvk)) ]
    else ok none

abbrev mark_child : String → ComponentLike → ConditionStatus → String → ComponentLike
mark_child condition r status reason = record r { marks = marked r.marks condition status reason }

-- `ReflectChildStatusOnParentWithError`
unfoldable pub reflect_child :
    String → ComponentLike → Option ApiError → Option Component → ComponentLike × Outcome
unfolding child_component_should_exist
reflect_child condition r (some e) child =
    if e.is_invalid
    then (mark_child condition r is_false "Invalid", fails (transient e.text))
    else if e.is_already_exists
    then (mark_child condition r is_false "AlreadyExists", fails durable)
    else (mark_child condition r is_unknown "Unknown", fails (transient e.text))
reflect_child condition r none none =
    if child_component_should_exist r
    then (mark_child condition r is_false "Missing", fails durable)
    else (mark_child condition r is_true "NotNeeded", done)
reflect_child condition r none (some child) = (mark_child condition r is_true "Exists", done)

-- `MergeBeforeUpdate`
abbrev pub merge_child : ChildComponent → ChildComponent → ChildComponent
merge_child current desired = record current {
  labels = desired.labels;
  component = record current.component { spec = desired.component.spec };
}
