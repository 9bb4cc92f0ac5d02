-- ===== src/Services/Ducks.antt =====
-- integrations/services/internal/controllers/serviceresourcedefinition_controller.go: the custom types
-- that a definition serves. An instance duck has a service instance as its child. In an association list of
-- labels the first entry of a key counts, so the entry that the code writes last stands first.
pub mod Clients
pub mod Laws
use Prim.Native.String
use wa8s.Prelude.{String, Bool, true, false, List, [], ◌∷◌, Option, none, some, if◌then◌else◌}
use wa8s.Prelude.Int.{ℤ}
use wa8s.Reconcile.{
  Mark, ConditionStatus, is_true, is_false, is_unknown, ApiError, Outcome, done, fails, durable,
  silent, Result, ok, err, marked,
}
use wa8s.Apis.Meta.{ObjectMeta}
use wa8s.Apis.Services.{ServiceClientSpec}
use wa8s.Apis.Services.Instance.{ServiceInstanceRequest, ServiceInstance}
use wa8s.Trace.{ComponentSpan, Trace, nil, cons, detect_trace_cycle}
use wa8s.Services.Lifecycle.Children.{MergeMaps}
use wa8s.Services.Definition.{Labels, definition_label}

abbrev pub instance_duck_label : String
instance_duck_label = "services.wa8s.reconciler.io/service-instance-duck"

-- `fmt.Sprintf("%s/%s", gvk.Group, strcase.KebabCase(gvk.Kind))`; the case is not changed here.
abbrev pub kind_label : (String → String) → String → String → String
kind_label kebab_case group kind = String.◌++◌ group (String.◌++◌ "/" (kebab_case kind))

pub record InstanceDuck : Type 0 where
  pub namespace : String
  pub name : String
  pub labels : Labels
  pub group : String
  pub kind : String
  pub type : String
  pub tier : String
  pub requests : List ServiceInstanceRequest
  pub service_instance_id : String
  pub marks : List Mark

pub record InstanceChild : Type 0 where
  pub generate_name : String
  pub labels : Labels
  pub instance_ : ServiceInstance

-- `len(items) != 1`
abbrev pub the_one : List String → String → Result String
the_one [] message = err message
the_one (x ∷ []) message = ok x
the_one (x ∷ y ∷ more) message = err message

abbrev pub instance_labels : (String → String) → String → InstanceDuck → Labels
instance_labels kebab_case definition r =
    (kind_label kebab_case r.group r.kind, r.name)
    ∷ (definition_label, definition)
    ∷ (instance_duck_label, r.name)
    ∷ []

abbrev pub instance_child :
    MergeMaps → (String → String) → String → InstanceDuck → String → InstanceChild
instance_child merge_maps kebab_case definition r lifecycle = record {
  generate_name = String.◌++◌ r.name "-";
  labels = merge_maps r.labels (instance_labels kebab_case definition r);
  instance_ = record {
    metadata = record { namespace = r.namespace; name = ""; annotations = [] };
    spec = record {
      ref = record { kind = "ClusterServiceLifecycle"; namespace = ""; name = lifecycle };
      type = r.type;
      tier = r.tier;
      requests = r.requests;
    };
    service_instance_id = "";
  };
}

-- `ServiceInstanceDuckChildServiceInstanceReconciler`, `DesiredChild`: `list` is `TrackAndList` of
-- the cluster scoped lifecycles with the labels, by their names.
unfoldable pub desired_instance :
    MergeMaps
    → (String → String)
    → (Labels → Result (List String))
    → String
    → InstanceDuck
    → Result InstanceChild
desired_instance merge_maps kebab_case list definition r =
    elim (list ((definition_label, definition) ∷ [])) [
      | err e ↦ err e
      | ok names ↦ elim (the_one names "failed to find ClusterServiceLifecycle") [
        | err e ↦ err e
        | ok lifecycle ↦ ok (instance_child merge_maps kebab_case definition r lifecycle)
      ]
    ]

abbrev mark_instance_duck : InstanceDuck → ConditionStatus → String → InstanceDuck
mark_instance_duck r status reason = record r {
  marks = marked r.marks "ServiceInstanceReady" status reason;
}

-- `ReflectChildStatusOnParentWithError`: the child's Ready condition with its instance id.
unfoldable pub reflect_instance :
    InstanceDuck → Option ApiError → Option (ConditionStatus × String) → InstanceDuck × Outcome
reflect_instance r (some e) child =
    if e.is_invalid
    then (mark_instance_duck r is_false "Invalid", done)
    else if e.is_already_exists
    then (mark_instance_duck r is_false "AlreadyExists", done)
    else (mark_instance_duck r is_unknown "Unknown", fails silent)
reflect_instance r none none = (mark_instance_duck r is_false "Missing", done)
reflect_instance r none (some (is_true, id)) =
    (record (mark_instance_duck r is_true "Ready") { service_instance_id = id }, done)
reflect_instance r none (some (is_false, id)) = (mark_instance_duck r is_false "NotReady", done)
reflect_instance r none (some (is_unknown, id)) = (mark_instance_duck r is_unknown "NotReady", done)
