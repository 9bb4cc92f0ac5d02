-- ===== src/Services/Binding.antt =====
-- integrations/services/internal/controllers/servicebinding_controller.go: binding, expiring and
-- unbinding. Each run starts from the status that the last one left; the calls of the lifecycle
-- service are logged with their answers, which the world gives.
pub mod History
pub mod Setup
pub mod ClientComponent
pub mod Refinement
pub mod Sequence
use Prim.Native.String
use wa8s.Prelude.{
  String, Bool, true, false, List, [], ◌∷◌, ◌++◌, Option, none, some, if◌then◌else◌, ◌==◌, ◌||◌,
  not,
}
use wa8s.Prelude.Int.{ℤ, pos, ◌+ℤ◌, ◌-ℤ◌, ltb_ℤ}
use wa8s.Reconcile.{Mark, is_true, is_false, Outcome, done, fails, panics, failed, update_status}
use wa8s.Apis.Services.{ServiceBindingSpec}

pub record Binding : Type 0 where
  pub namespace : String
  pub name : String
  pub labels : List (String × String)
  pub uid : String
  pub created : ℤ
  pub spec : ServiceBindingSpec
  pub service_binding_id : String
  pub secret_name : String
  pub image : String
  pub expires_after : ℤ
  pub expired : Bool
  pub marks : List Mark

-- The stashed values that these reconcilers retrieve.
pub record Stash : Type 0 where
  pub address : Option String
  pub binding_id : Option String
  pub instance_id : Option String

-- A request to the lifecycle service: address, binding id, instance id, and scopes.
pub data Call : Type 0 where
  bind : String → String → String → List String → Call
  unbind : String → String → String → Call

-- The time that `rtime.RetrieveNow` gives, and what the lifecycle service answers: an error or none.
pub record World : Type 0 where
  pub now : ℤ
  pub answer : Call → Option String

pub record Run : Type 0 where
  pub binding : Binding
  pub calls : List (Call × Option String)
  pub events : List String
  pub outcome : Outcome

abbrev pub bound_condition : String
bound_condition = "Bound"

abbrev pub mark_bound : Binding → Bool → String → Binding
mark_bound b ok reason = record b {
  marks =
      b.marks
      ++ (record {
        condition = bound_condition;
        status = if ok then is_true else is_false;
        reason = reason;
      }
          ∷ []);
}

abbrev pub quiet : Binding → Run
quiet b = record { binding = b; calls = []; events = []; outcome = done }

-- `resource.CreationTimestamp.Time.Before(now.Add(-1 * duration))`
abbrev pub is_over : ℤ → Binding → Bool
is_over now b = ltb_ℤ b.created (now -ℤ b.spec.duration)

-- The three `RetrieveOrDie` calls.
abbrev with_stash : Stash → Binding → (String → String → String → Run) → Run
with_stash s b k = elim s.address [
  | none ↦ record (quiet b) { outcome = panics }
  | some address ↦ elim s.binding_id [
    | none ↦ record (quiet b) { outcome = panics }
    | some binding_id ↦ elim s.instance_id [
      | none ↦ record (quiet b) { outcome = panics }
      | some instance_id ↦ k address binding_id instance_id
    ]
  ]
]

abbrev answered : Binding → Call → Option String → String → String → Run → Run
answered b call (some e) refused ok next = record {
  binding = b;
  calls = (call, some e) ∷ [];
  events = refused ∷ [];
  outcome = fails (failed e);
}
answered b call none refused ok next = record next { calls = (call, none) ∷ []; events = ok ∷ [] }

expire : World → Binding → String → String → String → Run
expire w b address binding_id instance_id =
    let call = unbind address binding_id instance_id in
    answered b call (w.answer call) "ExpireFailed" "Expired"
      (quiet (record (mark_bound b false "Expired") { expired = true }))

bind_new : World → Binding → String → String → String → Run
bind_new w b address binding_id instance_id =
    let call = bind address binding_id instance_id b.spec.scopes in
    let b' = record b {
      secret_name = String.◌++◌ "service-binding-" binding_id;
      service_binding_id = binding_id;
    } in
    answered b call (w.answer call) "BindingFailed" "Bound"
      (record (quiet (mark_bound b' true "Bound")) { outcome = fails update_status })

-- `ManageServiceBinding`, `Sync`
unfoldable pub manage : World → Stash → Binding → Run
unfolding expire bind_new
manage w s b =
    if b.service_binding_id == ""
    then with_stash s b (bind_new w b)
    else if b.expired
    then quiet (mark_bound b false "Expired")
    else if is_over w.now b
    then with_stash s b (expire w b)
    else quiet (mark_bound b true "Bound")

unbind_final : World → Binding → String → Run
unbind_final w b address =
    let call = unbind address b.service_binding_id b.service_binding_id in
    answered b call (w.answer call) "UnbindFailed" "Unbound" (quiet b)

-- `ManageServiceBinding`, `Finalize`: the instance id is read from the binding's id.
unfoldable pub finalize : World → Stash → Binding → Run
unfolding unbind_final
finalize w s b = if b.service_binding_id == "" || b.expired then quiet b else elim s.address [
  | none ↦ record (quiet b) { outcome = panics }
  | some address ↦ unbind_final w b address
]

-- `ExpirationRequeue`: the zero result, a later run, or an immediate one.
pub data Requeue : Type 0 where
  never : Requeue
  after : ℤ → Requeue
  at_once : Requeue

unfoldable pub expiration_requeue : ℤ → Binding → Requeue × Binding
expiration_requeue now b =
    let expiration = b.created +ℤ b.spec.duration in
    let wait = expiration -ℤ now in
    let b' = record b { expires_after = expiration } in
    if b.expired then (never, b) else if ltb_ℤ (pos 0) wait then (after wait, b') else (at_once, b')
