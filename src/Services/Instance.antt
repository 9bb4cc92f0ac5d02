-- ===== src/Services/Instance.antt =====
-- integrations/services/internal/controllers/serviceinstance_controller.go: resolving the lifecycle,
-- provisioning, and the deletion that bindings block.
pub mod Laws
use wa8s.Prelude.{
  String, Bool, true, false, not, eqb, List, [], ◌∷◌, ◌++◌, Option, none, some, if◌then◌else◌, ◌==◌,
  ℕ,
}
use wa8s.Reconcile.{
  Mark, ConditionStatus, is_true, is_false, is_unknown, Outcome, done, fails, panics, durable,
  generation_mismatch, update_status, failed, Observed, Read, found, not_found, read_error, marked,
}
use wa8s.Apis.Services.Instance.{ServiceInstanceSpec, ServiceInstanceRequest}

pub record Instance : Type 0 where
  pub namespace : String
  pub name : String
  pub uid : String
  pub spec : ServiceInstanceSpec
  pub service_instance_id : String
  pub marks : List Mark

-- A service lifecycle as it is read: its state and its address.
pub record Lifecycle : Type 0 where
  pub observed : Observed
  pub url : String

-- The name a lifecycle is read under: a cluster scoped one has no namespace.
pub data Key : Type 0 where
  cluster_key : String → Key
  namespaced_key : String → String → Key

abbrev mark_lifecycle : Instance → ConditionStatus → String → Instance
mark_lifecycle r status reason = record r { marks = marked r.marks "LifecycleReady" status reason }

pub lifecycle_key : Instance → Key
lifecycle_key r =
    if r.spec.ref.kind == "ClusterServiceLifecycle"
    then cluster_key r.spec.ref.name
    else namespaced_key r.namespace r.spec.ref.name

-- A missing address is marked and then overruled: the code goes on.
use_lifecycle : Instance → Lifecycle → Instance × Option String × Outcome
use_lifecycle r l =
    if not (eqb l.observed.generation l.observed.observed_generation)
    then (mark_lifecycle r is_unknown "Blocked", none, fails generation_mismatch)
    else if not l.observed.ready_is_true
    then (
      mark_lifecycle r (if l.observed.ready_is_false then is_false else is_unknown)
          "ServiceLifecycleNotReady",
      none,
      fails durable,
    )
    else let r' = if l.url == "" then mark_lifecycle r is_unknown "MissingURL" else r in
      (mark_lifecycle r' is_true "Ready", some l.url, done)

-- `ResolveServiceLifecycle`: the new status, the address it stashes, and how it ends.
unfoldable pub resolve_service_lifecycle :
    (Key → Read Lifecycle) → Instance → Instance × Option String × Outcome
unfolding lifecycle_key use_lifecycle
resolve_service_lifecycle get r = elim (get (lifecycle_key r)) [
  | found l ↦ use_lifecycle r l
  | not_found ↦ (mark_lifecycle r is_false "ServiceLifecycleNotFound", none, fails durable)
  | read_error e ↦ (r, none, fails (failed e))
]

-- A request to the lifecycle service.
pub data Call : Type 0 where
  provision : String → String → String → Option String → List ServiceInstanceRequest → Call
  destroy : String → String → Bool → Call

pub record Run : Type 0 where
  pub instance_ : Instance
  pub calls : List (Call × Option String)
  pub outcome : Outcome

abbrev pub quiet : Instance → Outcome → Run
quiet r o = record { instance_ = r; calls = []; outcome = o }

abbrev mark_provisioned : Instance → Instance
mark_provisioned r = record r { marks = marked r.marks "Provisioned" is_true "Provisioned" }

abbrev tier_of : Instance → Option String
tier_of r = if r.spec.tier == "" then none else some r.spec.tier

abbrev provisioned : Instance → Call → Option String → Run
provisioned r call (some e) = record {
  instance_ = r;
  calls = (call, some e) ∷ [];
  outcome = fails (failed e);
}
provisioned r call none = record {
  instance_ = mark_provisioned (record r { service_instance_id = r.uid });
  calls = (call, none) ∷ [];
  outcome = fails update_status;
}

-- `ManageServiceInstance`, `Sync`, with the address that was stashed.
unfoldable pub manage : (Call → Option String) → Option String → Instance → Run
manage answer address r =
    if r.service_instance_id == ""
    then elim address [
      | none ↦ quiet r panics
      | some a ↦
          let call = provision a r.uid r.spec.type (tier_of r) r.spec.requests in
          provisioned r call (answer call)
    ]
    else quiet (mark_provisioned r) done

-- A service binding of the instance's namespace: its name and the instance that it refers to.
pub record Dependent : Type 0 where
  pub name : String
  pub ref_name : String

-- The first binding that refers to the instance, if there is one.
pub blocker : String → List Dependent → Option Dependent
blocker name [] = none
blocker name (d ∷ ds) = if d.ref_name == name then some d else blocker name ds

-- What listing the bindings, tracking one, and clearing the condition answer.
pub record Api : Type 0 where
  pub bindings : Read (List Dependent)
  pub track : Dependent → Option String
  pub clear_condition : Option String

abbrev mark_finalizer : Instance → String → Instance
mark_finalizer r reason = record r { marks = marked r.marks "Finalizer" is_false reason }

abbrev cleared : Run → Option String → Run
cleared run (some e) = record run { outcome = fails (failed e) }
cleared run none = run

abbrev destroyed : Api → Instance → Call → Option String → Run
destroyed api r call (some e) = record {
  instance_ = mark_finalizer r "DestroyFailed";
  calls = (call, some e) ∷ [];
  outcome = fails durable;
}
destroyed api r call none =
    cleared (record { instance_ = r; calls = (call, none) ∷ []; outcome = done })
      api.clear_condition

abbrev blocked : Instance → Option String → Run
blocked r (some e) = quiet r (fails (failed e))
blocked r none = quiet (mark_finalizer r "ServiceBindingExists") (fails durable)

destroy_instance : (Call → Option String) → Api → Option String → Instance → Run
destroy_instance answer api address r = elim address [
  | none ↦ quiet r panics
  | some a ↦ let call = destroy a r.service_instance_id false in destroyed api r call (answer call)
]

with_bindings : (Call → Option String) → Api → Option String → Instance → List Dependent → Run
unfolding destroy_instance
with_bindings answer api address r ds = elim (blocker r.name ds) [
  | some d ↦ blocked r (api.track d)
  | none ↦ destroy_instance answer api address r
]

-- `ManageServiceInstance`, `Finalize`
unfoldable pub finalize : (Call → Option String) → Api → Option String → Instance → Run
unfolding with_bindings
finalize answer api address r =
    if r.service_instance_id == "" then quiet r done else elim api.bindings [
      | found ds ↦ with_bindings answer api address r ds
      | not_found ↦ quiet r (fails (failed "not found"))
      | read_error e ↦ quiet r (fails (failed e))
    ]
