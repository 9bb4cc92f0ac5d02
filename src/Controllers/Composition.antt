-- ===== src/Controllers/Composition.antt =====
-- internal/controllers/composition_controller.go: the children that a composition has for its
-- dependencies, the references that it takes from them, resolving the dependencies, and composing.
pub mod Children
pub mod Resolving
use Prim.Native.String
use wa8s.Prelude.{
  ℕ, String, Bool, true, false, not, is_some, List, [], ◌∷◌, ◌++◌, Option, none, some,
  if◌then◌else◌, ◌==◌,
}
use wa8s.Reconcile.{
  Outcome, done, fails, panics, halt, durable, failed, is_true, is_false, is_unknown, Observed,
  Result, ok, err,
}
use wa8s.Apis.Meta.{ObjectMeta, lookup, components_v1alpha1}
use wa8s.Apis.Components.{ComponentReference, GenericComponentSpec, OciReference, ComponentSpec}
use wa8s.Apis.Components.ConfigStore.{ConfigStoreSpec}
use wa8s.Apis.Components.Composition.{
  Sources, GenericCompositionSpec, Dependencies, CompositionDependency, nil, cons, plain, nested,
  CompositionSpec,
}
use wa8s.Controllers.Child.{no_generic}

abbrev pub dependency_annotation : String
dependency_annotation = "wa8s.reconciler.io/composition-dependency"

-- `ourChild` of the reconciler, and `OurChild` of `ManageOciDependencies`, on the annotations of a
-- child.
unfoldable pub our_child : List (String × String) → Bool
our_child annotations = not (is_some (lookup dependency_annotation annotations))

unfoldable pub our_oci_child : List (String × String) → Bool
our_oci_child annotations = is_some (lookup dependency_annotation annotations)

abbrev pub component_of : CompositionDependency → String
component_of (plain name s) = name
component_of (nested name s c) = name

abbrev pub sources_of : CompositionDependency → Sources
sources_of (plain name s) = s
sources_of (nested name s c) = s

abbrev pub composition_of : CompositionDependency → Option GenericCompositionSpec
composition_of (plain name s) = none
composition_of (nested name s c) = some c

-- The resource: `merge_maps` stands for `reconcilers.MergeMaps`.
pub record Parent : Type 0 where
  pub namespace : String
  pub name : String
  pub labels : List (String × String)
  pub merge_maps : List (String × String) → List (String × String) → List (String × String)

pub record ChildOf (A : Type 0) : Type 0 where
  pub namespace : String
  pub generate_name : String
  pub labels : List (String × String)
  pub annotations : List (String × String)
  pub spec : A

abbrev child_of : {A : Type 0} → Parent → String → CompositionDependency → A → ChildOf A
child_of r key d spec = record {
  namespace = r.namespace;
  generate_name = String.◌++◌ r.name "-";
  labels = r.merge_maps r.labels ((key, r.name) ∷ []);
  annotations = (dependency_annotation, component_of d) ∷ [];
  spec = spec;
}

abbrev prepend :
    {A : Type 0}
    → Parent
    → String
    → CompositionDependency
    → Option A
    → List (ChildOf A)
    → List (ChildOf A)
prepend r key d none rest = rest
prepend r key d (some a) rest = child_of r key d a ∷ rest

abbrev config_spec : CompositionDependency → Option ConfigStoreSpec
config_spec d = elim (sources_of d).config [
  | none ↦ none
  | some c ↦ some (record { generic = no_generic; config = c })
]

abbrev oci_spec : CompositionDependency → Option ComponentSpec
oci_spec d = elim (sources_of d).oci [
  | none ↦ none
  | some o ↦ some (record { generic = no_generic; oci = some o; ref = none })
]

abbrev nested_spec : CompositionDependency → Option CompositionSpec
nested_spec d = elim (composition_of d) [
  | none ↦ none
  | some c ↦ some (record { generic = no_generic; composition = c })
]

-- The `DesiredChildren` of the three child set reconcilers.
unfoldable pub desired_config_stores :
    Parent → String → Dependencies → List (ChildOf ConfigStoreSpec)
desired_config_stores r key nil = []
desired_config_stores r key (cons d ds) =
    prepend r key d (config_spec d) (desired_config_stores r key ds)

unfoldable pub desired_components : Parent → String → Dependencies → List (ChildOf ComponentSpec)
desired_components r key nil = []
desired_components r key (cons d ds) = prepend r key d (oci_spec d) (desired_components r key ds)

unfoldable pub desired_compositions :
    Parent → String → Dependencies → List (ChildOf CompositionSpec)
desired_compositions r key nil = []
desired_compositions r key (cons d ds) =
    prepend r key d (nested_spec d) (desired_compositions r key ds)

-- `IdentifyChild`; a missing annotation reads as the empty text.
unfoldable pub identify_child : {A : Type 0} → ChildOf A → String
identify_child c = elim (lookup dependency_annotation c.annotations) [ none ↦ "" | some s ↦ s ]

-- `MergeBeforeUpdate`, the same for the three kinds of children.
abbrev pub merge_child : {A : Type 0} → ChildOf A → ChildOf A → ChildOf A
merge_child current desired = record current {
  annotations = desired.annotations;
  labels = desired.labels;
  spec = desired.spec;
}

-- A result of a child set: the id, and the namespace and the name of the child if there is one.
pub record ChildResult : Type 0 where
  pub id : String
  pub child : Option (String × String)

abbrev pub with_ref : Sources → ComponentReference → Sources
with_ref s ref = record s { ref = some ref }

abbrev pub set_ref : CompositionDependency → ComponentReference → CompositionDependency
set_ref (plain name s) ref = plain name (with_ref s ref)
set_ref (nested name s c) ref = nested name (with_ref s ref) c

abbrev pub reference_to : String → String × String → ComponentReference
reference_to kind (namespace, name) = record {
  api_version = components_v1alpha1;
  kind = kind;
  namespace = namespace;
  name = name;
}

-- The body of the two loops, for one result and one dependency.
abbrev pub reflect_one : String → ChildResult → CompositionDependency → CompositionDependency
reflect_one kind r d =
    if r.id == component_of d
    then elim r.child [ none ↦ d | some c ↦ set_ref d (reference_to kind c) ]
    else d

pub reflect_result : String → ChildResult → Dependencies → Dependencies
reflect_result kind r nil = nil
reflect_result kind r (cons d ds) = cons (reflect_one kind r d) (reflect_result kind r ds)

-- `ReflectChildrenStatusOnParent` of a reconciler whose children are of a kind.
unfoldable pub reflect_children : String → List ChildResult → Dependencies → Dependencies
unfolding reflect_result
reflect_children kind [] ds = ds
reflect_children kind (r ∷ rs) ds = reflect_children kind rs (reflect_result kind r ds)
