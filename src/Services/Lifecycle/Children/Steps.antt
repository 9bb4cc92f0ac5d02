-- ===== src/Services/Lifecycle/Children/Steps.antt =====
-- integrations/services/internal/controllers/servicelifecycle_controller.go: the children of a
-- lifecycle in the order of the reconciler. `reconcilers.Sequence` stops at the first error.
use wa8s.Prelude.{
  ◌≡◌, ◌≢◌, refl, ap, String, true, false, Option, none, some, if◌then◌else◌, arith, eq_iff,
  is_some,
}
use wa8s.Reconcile.{ApiError, Outcome, done, fails, panics, Read}
use wa8s.Apis.Meta.{Context}
use wa8s.Apis.Components.{ComponentReference}
use wa8s.Services.Lifecycle.{ServiceLifecycle}
use wa8s.Services.Lifecycle.Children.{
  MergeMaps, HostStatus, TriggerChild, TriggerStatus, ClientComponent, reflect_host,
  desired_trigger, reflect_trigger, reflect_client_component,
}

-- What a run is given from outside: the outcomes of creating or updating the two children, and the
-- components that references resolve to.
pub record Turn : Type 0 where
  pub merge_maps : MergeMaps
  pub key : String
  pub ctx : Context
  pub host_error : Option ApiError
  pub host : Option HostStatus
  pub trigger_error : Option ApiError
  pub trigger : Option TriggerStatus
  pub resolve : ComponentReference → Read ClientComponent

abbrev pub after_trigger : Turn → ServiceLifecycle × Outcome → ServiceLifecycle × Outcome
after_trigger t (r, done) = reflect_client_component t.resolve r
after_trigger t (r, o) = (r, o)

abbrev pub with_trigger : Turn → ServiceLifecycle → Option TriggerChild → ServiceLifecycle × Outcome
with_trigger t r none = (r, panics)
with_trigger t r (some child) = after_trigger t (reflect_trigger r t.trigger_error t.trigger)

abbrev pub after_host :
    Turn → ServiceLifecycle → Option String → Outcome → ServiceLifecycle × Outcome
after_host t r stashed done = with_trigger t r (desired_trigger t.merge_maps t.key t.ctx r stashed)
after_host t r stashed o = (r, o)

-- The `Then` branch of the reconciler, taken while there is no condition `Finalizer`.
unfoldable pub sync_lifecycle : Turn → ServiceLifecycle → ServiceLifecycle × Outcome
sync_lifecycle t r =
    let h = reflect_host r t.host_error t.host in
    if is_some r.finalizer then (r, done) else after_host t h.lifecycle h.stashed h.outcome

host_stashes :
    (r : ServiceLifecycle) (e : Option ApiError) (child : Option HostStatus)
    → let h = reflect_host r e child in
      (h.outcome ≢ panics) × (h.outcome ≡ done → is_some h.stashed ≡ true)
unfolding reflect_host
host_stashes r (some e) child = (λ p. cc, λ p. cc)
host_stashes r none none = (λ p. cc, λ p. cc)
host_stashes r none (some child) = ground arith

-- The trigger has an address when it is reflected without an error, and it is the one reported.
abbrev Serves : Option TriggerStatus → ServiceLifecycle → Type 0
Serves child r = (c : TriggerStatus) × (child ≡ some c) × (r.url ≡ c.url) × (c.url ≢ "")

trigger-Serves :
    (r : ServiceLifecycle) (e : Option ApiError) (child : Option TriggerStatus)
    → let (r', o) = reflect_trigger r e child in (o ≢ panics) × (o ≡ done → Serves child r')
unfolding reflect_trigger
trigger-Serves r (some e) child = (ground arith, λ p. absurd (ground arith))
trigger-Serves r none none = (λ p. cc, λ p. cc)
trigger-Serves r none (some c) =
    (ground arith, λ p. (c, refl, ground (arith, eq_iff c.url ""), ground (arith, eq_iff c.url "")))

client_keeps_url :
    (resolve : ComponentReference → Read ClientComponent) (r : ServiceLifecycle)
    → let (r', o) = reflect_client_component resolve r in (o ≢ panics) × (r'.url ≡ r.url)
unfolding reflect_client_component
client_keeps_url resolve r = ground arith

after_trigger-Serves :
    (t : Turn) (q : ServiceLifecycle × Outcome)
    → q.1 ≢ panics
    → (q.1 ≡ done → Serves t.trigger q.0)
    → let (r', o) = after_trigger t q in (o ≢ panics) × (o ≡ done → Serves t.trigger r')
after_trigger-Serves t (r, done) h serves =
    let (safe, same) = client_keeps_url t.resolve r in
    let (c, e, u, n) = serves refl in (safe, λ _. (c, e, rw (same, u) refl, n))
after_trigger-Serves t (r, fails e) h serves = (λ p. cc, λ p. cc)
after_trigger-Serves t (r, panics) h serves = absurd (h refl)

after_host-Serves :
    (t : Turn) (r : ServiceLifecycle) (stashed : Option String) (o : Outcome)
    → o ≢ panics
    → (o ≡ done → is_some stashed ≡ true)
    → let (r', o') = after_host t r stashed o in (o' ≢ panics) × (o' ≡ done → Serves t.trigger r')
unfolding desired_trigger
after_host-Serves t r (some n) done h stashes =
    let (safe, serves) = trigger-Serves r t.trigger_error t.trigger in
    after_trigger-Serves t (reflect_trigger r t.trigger_error t.trigger) safe serves
after_host-Serves t r none done h stashes = absurd (let p = stashes refl in cc)
after_host-Serves t r stashed (fails e) h stashes = (λ p. cc, λ p. cc)
after_host-Serves t r stashed panics h stashes = absurd (h refl)

-- Whatever the two children, the API server and the resolved component are, reconciling a lifecycle
-- that is not being deleted never panics: the name of the composition is stashed when the trigger
-- is asked for. And when it ends without an error, its trigger has an address, which is the one that
-- the status reports.
pub sync_lifecycle-serves :
    (t : Turn) (r : ServiceLifecycle)
    → r.finalizer ≡ none
    → let (r', o) = sync_lifecycle t r in
      (o ≢ panics)
      × (o ≡ done → (c : TriggerStatus) × (t.trigger ≡ some c) × (r'.url ≡ c.url) × (c.url ≢ ""))
unfolding sync_lifecycle
sync_lifecycle-serves t r f =
    let h = reflect_host r t.host_error t.host in
    let (safe, stashes) = host_stashes r t.host_error t.host in
    let open_ : is_some r.finalizer ≡ false = ap is_some f in
    rw open_ (after_host-Serves t h.lifecycle h.stashed h.outcome safe stashes)
