-- ===== src/Services/Definition.antt =====
-- integrations/services/internal/controllers/serviceresourcedefinition_controller.go: the children of
-- a service resource definition, which are a cluster scoped lifecycle, two custom resource
-- definitions and a component duck.
pub mod Steps
pub mod Conditions
pub mod Running
use Prim.Native.String
use wa8s.Prelude.{
  String, Bool, true, false, ◌&&◌, List, [], ◌∷◌, Option, none, some, if◌then◌else◌, ◌==◌, is_some,
}
use wa8s.Reconcile.{
  Mark, ConditionStatus, is_true, is_false, is_unknown, ApiError, Outcome, done, fails, silent,
  marked,
}
use wa8s.Apis.Meta.{Context, lookup, or_empty, wa8s_namespace}
use wa8s.Apis.Services.Definition.{ServiceResourceDefinitionNames, Letters}
use wa8s.Apis.Services.Lifecycle.{ServiceLifecycleSpec}
use wa8s.Services.Lifecycle.Children.{MergeMaps}

abbrev pub Labels : Type 0
Labels = List (String × String)

-- `ServiceResourceDefinitionSpec` with what else is read of the resource, and its conditions as a
-- log.
pub record Definition : Type 0 where
  pub name : String
  pub labels : Labels
  pub group : String
  pub instance_names : ServiceResourceDefinitionNames
  pub client_names : ServiceResourceDefinitionNames
  pub lifecycle : ServiceLifecycleSpec
  pub marks : List Mark

abbrev pub definition_label : String
definition_label = "services.wa8s.reconciler.io/service-resource-definition"

abbrev pub type_label : String
type_label = "services.wa8s.reconciler.io/service-resource-definition-type"

pub record LifecycleChild : Type 0 where
  pub namespace : String
  pub generate_name : String
  pub labels : Labels
  pub spec : ServiceLifecycleSpec

-- `ServiceResourceDefinitionLifecyceReconciler`, `DesiredChild`
unfoldable pub desired_lifecycle : MergeMaps → Context → Definition → LifecycleChild
desired_lifecycle merge_maps ctx r = record {
  namespace = wa8s_namespace ctx;
  generate_name = String.◌++◌ r.name "-";
  labels = merge_maps r.labels ((definition_label, r.name) ∷ []);
  spec = r.lifecycle;
}

-- A custom resource definition: its name, its labels, and the names that it serves.
pub record Served : Type 0 where
  pub name : String
  pub labels : Labels
  pub group : String
  pub plural : String
  pub singular : String
  pub kind : String
  pub list_kind : String
  pub categories : List String
  pub short_names : List String

-- `DesiredChild` of the two definitions, which differ in `names` and in the type, `instance` or
-- `client`; `labels` are those of the embedded definition, to which `AddLabel` adds two.
unfoldable pub desired_crd :
    Letters → Labels → String → ServiceResourceDefinitionNames → Definition → Served
desired_crd go labels type names r = record {
  name = String.◌++◌ names.plural (String.◌++◌ "." r.group);
  labels = (type_label, type) ∷ (definition_label, r.name) ∷ labels;
  group = r.group;
  plural = names.plural;
  singular = go.to_lower names.kind;
  kind = names.kind;
  list_kind = String.◌++◌ names.kind "List";
  categories = names.categories;
  short_names = names.short_names;
}

-- `OurChild`: a missing label reads as the empty text.
unfoldable pub our_crd : String → Definition → Labels → Bool
unfolding lookup
our_crd type r labels =
    or_empty (lookup definition_label labels) == r.name
    && or_empty (lookup type_label labels) == type

pub record DuckChild : Type 0 where
  pub name : String
  pub labels : Labels
  pub group : String
  pub version : String
  pub kind : String

-- `ServiceResourceDefinitionClientComponentDuckReconciler`, `DesiredChild`
unfoldable pub desired_duck : MergeMaps → Definition → DuckChild
desired_duck merge_maps r = record {
  name = String.◌++◌ r.client_names.plural (String.◌++◌ "." r.group);
  labels = merge_maps r.labels ((definition_label, r.name) ∷ []);
  group = r.group;
  version = "v1alpha1";
  kind = r.client_names.kind;
}

-- `LocalTypes` of the sub manager: the group with each kind.
unfoldable pub local_types : Definition → List (String × String)
local_types r =
    (r.group, r.instance_names.kind)
    ∷ (r.group, String.◌++◌ r.instance_names.kind "List")
    ∷ (r.group, r.client_names.kind)
    ∷ (r.group, String.◌++◌ r.client_names.kind "List")
    ∷ []

abbrev pub mark_definition : Definition → String → ConditionStatus → String → Definition
mark_definition r condition status reason = record r {
  marks = marked r.marks condition status reason;
}

-- The Ready condition of a child that has one: true, false or neither.
abbrev pub reflect_ready : String → Definition → ConditionStatus → Definition × Outcome
reflect_ready condition r is_true = (mark_definition r condition is_true "Ready", done)
reflect_ready condition r is_false = (mark_definition r condition is_false "NotReady", done)
reflect_ready condition r is_unknown = (mark_definition r condition is_unknown "NotReady", done)

-- `ReflectChildStatusOnParentWithError` of the lifecycle.
unfoldable pub reflect_lifecycle :
    Definition → Option ApiError → Option ConditionStatus → Definition × Outcome
reflect_lifecycle r (some e) child =
    if e.is_invalid
    then (mark_definition r "LifecycleReady" is_false "Invalid", done)
    else (mark_definition r "LifecycleReady" is_unknown "Unknown", fails silent)
reflect_lifecycle r none none = (mark_definition r "LifecycleReady" is_false "Missing", done)
reflect_lifecycle r none (some ready) = reflect_ready "LifecycleReady" r ready

-- The errors of the three other children, which tell one that exists already.
abbrev pub reflect_error : String → Definition → ApiError → Definition × Outcome
reflect_error condition r e =
    if e.is_invalid
    then (mark_definition r condition is_false "Invalid", done)
    else if e.is_already_exists
    then (mark_definition r condition is_false "AlreadyExists", done)
    else (mark_definition r condition is_unknown "Unknown", fails silent)

-- `slices.IndexFunc` with the condition that it finds: the status of the first one of the type.
unfoldable pub established : List (String × String) → Option String
established [] = none
established ((type, status) ∷ cs) =
    let rest = established cs in if type == "Established" then some status else rest

-- `ReflectChildStatusOnParentWithError` of the two definitions, for their conditions.
unfoldable pub reflect_crd :
    String → Definition → Option ApiError → Option (List (String × String)) → Definition × Outcome
unfolding established
reflect_crd condition r (some e) child = reflect_error condition r e
reflect_crd condition r none none = (mark_definition r condition is_false "Missing", done)
reflect_crd condition r none (some conditions) =
    let status = or_empty (established conditions) in
    if status == "True" then (mark_definition r condition is_true "Established", done) else (
      mark_definition r condition (if status == "False" then is_false else is_unknown)
          "NotEstablished",
      done,
    )

-- `ReflectChildStatusOnParentWithError` of the component duck.
unfoldable pub reflect_duck :
    Definition → Option ApiError → Option ConditionStatus → Definition × Outcome
reflect_duck r (some e) child = reflect_error "ClientComponentDuckReady" r e
reflect_duck r none none = (mark_definition r "ClientComponentDuckReady" is_false "Missing", done)
reflect_duck r none (some ready) = reflect_ready "ClientComponentDuckReady" r ready
