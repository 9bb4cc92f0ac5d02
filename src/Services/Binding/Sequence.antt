-- ===== src/Services/Binding/Sequence.antt =====
-- integrations/services/internal/controllers/servicebinding_controller.go: `ServiceBindingReconciler`,
-- the six sub reconcilers in sequence. `reconcilers.Sequence` stops at the first error, and what it
-- was asked to requeue until then stays.
pub mod Settling
pub mod Settled
use wa8s.Prelude.{
  ◌≡◌, ◌≢◌, ◌↔◌, refl, String, true, false, List, [], Option, none, some, if◌then◌else◌, arith,
  Bool-cases, inl, inr,
}
use wa8s.Prelude.Int.{ltb_ℤ, pos, ◌+ℤ◌, ◌-ℤ◌}
use wa8s.Reconcile.{ApiError, Outcome, done, fails, panics}
use wa8s.Apis.Components.{Component}
use wa8s.Controllers.Child.{ComponentLike, reflect_child}
use wa8s.Services.Binding.{Binding, Run, Requeue, never, after, at_once, expiration_requeue}
use wa8s.Services.Binding.History.{Log}
use wa8s.Services.Binding.ClientComponent.{ClientStatus, reflect_client}
use wa8s.Services.Binding.Setup.{Turn, set_up}

-- What a run is given from outside: that of the first three steps, the outcomes of creating or
-- updating the client's composition and the child component, and the metadata of the resource that
-- the last step reads.
pub record Turns : Type 0 where
  pub setup : Turn
  pub client_error : Option ApiError
  pub client : Option ClientStatus
  pub annotations : List (String × String)
  pub owners : List String
  pub child_error : Option ApiError
  pub child : Option Component

pub record Reconciled : Type 0 where
  pub binding : Binding
  pub calls : Log
  pub requeue : Requeue
  pub outcome : Outcome

-- `ComponentChildReconciler` for a binding, whose spec of a component is nil.
abbrev pub component_like : Turns → Binding → ComponentLike
component_like t b = record {
  metadata = record { namespace = b.namespace; name = b.name; annotations = t.annotations };
  labels = b.labels;
  owners = t.owners;
  generic = none;
  marks = b.marks;
}

abbrev pub reflect_component : Turns → Binding → Binding × Outcome
reflect_component t b =
    let (r, o) = reflect_child "ChildComponent" (component_like t b) t.child_error t.child in
    (record b { marks = r.marks }, o)

abbrev pub after_requeue : Turns → Log → Requeue × Binding → Reconciled
after_requeue t calls (requeue, b) =
    let (b', o) = reflect_component t b in
    record { binding = b'; calls = calls; requeue = requeue; outcome = o }

abbrev pub stopped : Log → Binding → Outcome → Reconciled
stopped calls b o = record { binding = b; calls = calls; requeue = never; outcome = o }

abbrev pub after_client : Turns → Log → Binding × Outcome → Reconciled
after_client t calls (b, done) = after_requeue t calls (expiration_requeue t.setup.world.now b)
after_client t calls (b, fails e) = stopped calls b (fails e)
after_client t calls (b, panics) = stopped calls b panics

abbrev pub after_set_up : Turns → Log → Binding → Outcome → Reconciled
after_set_up t calls b done = after_client t calls (reflect_client b t.client_error t.client)
after_set_up t calls b (fails e) = stopped calls b (fails e)
after_set_up t calls b panics = stopped calls b panics

unfoldable pub reconcile_binding : Turns → Binding → Reconciled
reconcile_binding t b =
    let run = set_up t.setup b in after_set_up t run.calls run.binding run.outcome

requeue_cases :
    (t : Turns) (b : Binding)
    → ((expiration_requeue t.setup.world.now b).0 ≢ never) ↔ (b.expired ≡ false)
unfolding expiration_requeue
requeue_cases t b = elim (Bool-cases b.expired) [
  | inl e ↦ rw e (λ h. absurd (h refl), λ h. absurd (cc))
  | inr e ↦ (λ _. e, λ _ p. later b e p)
]
  where
    later : (b : Binding) → b.expired ≡ false → (expiration_requeue t.setup.world.now b).0 ≢ never
    later b e p = ground (arith, e)

client_schedules_iff :
    (t : Turns) (calls : Log) (q : Binding × Outcome)
    → ((after_client t calls q).requeue ≢ never) ↔ ((q.1 ≡ done) × (q.0.expired ≡ false))
client_schedules_iff t calls (b, done) =
    let iff = requeue_cases t b in (λ h. (refl, iff.0 h), λ h. iff.1 h.1)
client_schedules_iff t calls (b, fails e) = (λ h. absurd (h refl), λ h. absurd (let p = h.0 in cc))
client_schedules_iff t calls (b, panics) = (λ h. absurd (h refl), λ h. absurd (let p = h.0 in cc))

set_up_schedules_iff :
    (t : Turns) (calls : Log) (b : Binding) (o : Outcome)
    → let client = reflect_client b t.client_error t.client in
      ((after_set_up t calls b o).requeue ≢ never)
      ↔ ((o ≡ done) × (client.1 ≡ done) × (client.0.expired ≡ false))
set_up_schedules_iff t calls b done =
    let iff = client_schedules_iff t calls (reflect_client b t.client_error t.client) in
    (λ h. let (d, x) = iff.0 h in (refl, d, x), λ h. iff.1 (h.1, h.2))
set_up_schedules_iff t calls b (fails e) = (λ h. absurd (h refl), λ h. absurd (let p = h.0 in cc))
set_up_schedules_iff t calls b panics = (λ h. absurd (h refl), λ h. absurd (let p = h.0 in cc))

client_keeps_expired :
    (b : Binding) (e : Option ApiError) (c : Option ClientStatus)
    → (reflect_client b e c).0.expired ≡ b.expired
unfolding reflect_client
client_keeps_expired b (some e) c = ground arith
client_keeps_expired b none none = refl
client_keeps_expired b none (some c) = ground arith

-- A run schedules another one, for the expiration, exactly when its first three steps end without an
-- error, reflecting the composition of the client ends without one too, and the binding is not
-- expired by then.
pub reconcile_binding-schedules_iff :
    (t : Turns) (b : Binding)
    → let run = set_up t.setup b in
      ((reconcile_binding t b).requeue ≢ never) ↔ (
        (run.outcome ≡ done)
        × ((reflect_client run.binding t.client_error t.client).1 ≡ done)
        × (run.binding.expired ≡ false))
unfolding reconcile_binding
reconcile_binding-schedules_iff t b =
    let run = set_up t.setup b in
    let iff = set_up_schedules_iff t run.calls run.binding run.outcome in
    let same = client_keeps_expired run.binding t.client_error t.client in rw (← same) iff
