-- ===== src/Services/Ducks/Clients.antt =====
-- integrations/services/internal/controllers/serviceresourcedefinition_controller.go: client ducks,
-- each with a service client that refers to the instance of an instance duck.
use Prim.Native.String
use wa8s.Prelude.{String, List, [], ◌∷◌, Option, none, some, if◌then◌else◌}
use wa8s.Prelude.Int.{ℤ}
use wa8s.Reconcile.{
  Mark, ConditionStatus, is_true, is_false, is_unknown, ApiError, Outcome, done, fails, durable,
  silent, Result, ok, err, marked,
}
use wa8s.Apis.Services.{ServiceClientSpec}
use wa8s.Trace.{ComponentSpan, Trace, nil, cons, detect_trace_cycle}
use wa8s.Services.Lifecycle.Children.{MergeMaps}
use wa8s.Services.Ducks.{instance_duck_label, kind_label, the_one}
use wa8s.Services.Definition.{Labels, definition_label}

abbrev pub client_duck_label : String
client_duck_label = "services.wa8s.reconciler.io/service-client-duck"

-- The status fields of a service client that a client duck takes over, but the list of traces.
pub record ClientStatus : Type 0 where
  pub image : String
  pub service_binding_id : String
  pub binding : String
  pub renews_after : ℤ
  pub expires_after : ℤ

pub record ClientDuck : Type 0 where
  pub namespace : String
  pub name : String
  pub uid : String
  pub labels : Labels
  pub group : String
  pub kind : String
  pub spec : ServiceClientSpec
  pub status : ClientStatus
  pub trace : Trace
  pub marks : List Mark

pub record ClientChild : Type 0 where
  pub namespace : String
  pub generate_name : String
  pub labels : Labels
  pub spec : ServiceClientSpec

-- The labels by which a client looks for the instance of a duck.
abbrev pub client_selector : String → String → Labels
client_selector definition instance_duck =
    (definition_label, definition) ∷ (instance_duck_label, instance_duck) ∷ []

abbrev pub client_child : MergeMaps → (String → String) → ClientDuck → String → ClientChild
client_child merge_maps kebab_case r instance_ = record {
  namespace = r.namespace;
  generate_name = String.◌++◌ r.name "-";
  labels =
      merge_maps r.labels
        ((kind_label kebab_case r.group r.kind, r.name) ∷ (client_duck_label, r.name) ∷ []);
  spec = record r.spec { ref = record { name = instance_ } };
}

-- `ServiceClientDuckChildServiceClientReconciler`, `DesiredChild`: `list` is `TrackAndList` of the
-- instances of a namespace with the labels, by their names.
unfoldable pub desired_client :
    MergeMaps
    → (String → String)
    → (String → Labels → Result (List String))
    → String
    → ClientDuck
    → Result ClientChild
desired_client merge_maps kebab_case list definition r =
    elim (list r.namespace (client_selector definition r.spec.ref.name)) [
      | err e ↦ err e
      | ok names ↦ elim (the_one names "failed to find ServiceInstance") [
        | err e ↦ err e
        | ok instance_ ↦ ok (client_child merge_maps kebab_case r instance_)
      ]
    ]

abbrev mark_client_duck : ClientDuck → ConditionStatus → String → ClientDuck
mark_client_duck r status reason = record r {
  marks = marked r.marks "ServiceClientReady" status reason;
}

-- A service client as it is read back: its Ready condition, its status, and the span that
-- `SynthesizeSpan` makes of it.
pub record ReadClient : Type 0 where
  pub ready : ConditionStatus
  pub status : ClientStatus
  pub span : ComponentSpan

abbrev ready_client : ClientDuck → ReadClient → ClientDuck × Outcome
ready_client r c =
    let (has_cycle, sanitized) = detect_trace_cycle r.uid (cons c.span nil) in
    let r' = record r { status = c.status } in
    if has_cycle
    then (
      record (mark_client_duck r' is_false "CycleDetected") { trace = sanitized },
      fails durable,
    )
    else (record (mark_client_duck r' is_true "Ready") { trace = cons c.span nil }, done)

abbrev with_client : ClientDuck → ReadClient → ConditionStatus → ClientDuck × Outcome
with_client r c is_true = ready_client r c
with_client r c is_false = (mark_client_duck r is_false "NotReady", done)
with_client r c is_unknown = (mark_client_duck r is_unknown "NotReady", done)

-- `ReflectChildStatusOnParentWithError`
unfoldable pub reflect_client :
    ClientDuck → Option ApiError → Option ReadClient → ClientDuck × Outcome
reflect_client r (some e) child =
    if e.is_invalid
    then (mark_client_duck r is_false "Invalid", done)
    else if e.is_already_exists
    then (mark_client_duck r is_false "AlreadyExists", done)
    else (mark_client_duck r is_unknown "Unknown", fails silent)
reflect_client r none none = (mark_client_duck r is_false "Missing", done)
reflect_client r none (some c) = with_client r c c.ready
