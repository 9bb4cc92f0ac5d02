-- ===== src/Services/Binding/Setup/Pipeline.antt =====
-- integrations/services/internal/controllers/servicebinding_controller.go: histories of the first
-- three steps of the reconciler.
use native.Mathlib.Nat.{add_assoc}
use wa8s.Prelude.{
  ℕ, ◌+◌, ◌≤◌, ◌≡◌, ◌≢◌, refl, ap, ◌∙◌, String, false, List, [], ◌∷◌, ◌++◌, Option, none, some,
  if◌then◌else◌, ◌==◌, arith, eq_iff,
}
use wa8s.Reconcile.{ApiError, Outcome, done, fails, panics, Read}
use wa8s.Apis.Meta.{Context}
use wa8s.Services.Instance.{Lifecycle, Key}
use wa8s.Services.Credentials.{Secret}
use wa8s.Services.Binding.{Binding, Stash, World, Run, manage}
use wa8s.Services.Binding.History.{
  Log, binds, unbinds, binds-append, unbinds-append, Accounts, manage-Accounts, manage_uid,
}
use wa8s.Services.Binding.Setup.{
  Provider, Resolved, Turn, resolve_service_instance_id, reflect_secret, set_up, stash_of, ended,
  after_secret, after_resolved,
}

-- Runs of the three steps one after the other, each with what is outside of the reconciler then.
unfoldable pub set_ups : List Turn → Binding → Binding × Log
set_ups [] b = (b, [])
set_ups (t ∷ turns) b =
    let run = set_up t b in let (b', log) = set_ups turns run.binding in (b', run.calls ++ log)

-- The same but for what the steps before `ManageServiceBinding` may write.
abbrev pub SameStatus : Binding → Binding → Type 0
SameStatus b b' =
    (b'.uid ≡ b.uid) × (b'.service_binding_id ≡ b.service_binding_id) × (b'.expired ≡ b.expired)

pub resolve_same :
    (ctx : Context) (get_instance : String → String → Read Provider)
    (get_lifecycle : Key → Read Lifecycle) (b : Binding)
    → SameStatus b (resolve_service_instance_id ctx get_instance get_lifecycle b).binding
unfolding resolve_service_instance_id
resolve_same ctx get_instance get_lifecycle b = ground arith

-- The status of the result, and the id that is stashed when the step ends without an error.
pub reflect_same :
    (b : Binding) (e : Option ApiError) (child : Option Secret)
    → SameStatus b (reflect_secret b e child).0
      × ((reflect_secret b e child).2 ≡ done → (reflect_secret b e child).1 ≡ some b.uid)
unfolding reflect_secret
reflect_same b (some e) child = ground arith
reflect_same b none none = ground arith
reflect_same b none (some c) = ground arith

-- What a run may do to the accounts of a binding.
abbrev Keeps : Binding → Run → Type 0
Keeps b run =
    (run.binding.uid ≡ b.uid)
    × ((m n : ℕ)
        → Accounts b m n
        → Accounts run.binding (m + binds run.calls) (n + unbinds run.calls))

ended-Keeps : (b b' : Binding) (o : Outcome) → SameStatus b b' → Keeps b (ended b' o)
unfolding binds unbinds
ended-Keeps b b' o (u, i, x) =
    (u, λ m n a. ground (arith, a.bound_once, a.unbound_once, a.expired_bound))

manage-Keeps :
    (w : World) (s : Stash) (b b' : Binding)
    → b.uid ≢ ""
    → SameStatus b b'
    → s.binding_id ≡ some b.uid
    → Keeps b (manage w s b')
manage-Keeps w s b b' h (u, i, x) e = (
  manage_uid w s b' ∙ u,
  λ m n a.
      let a' : Accounts b' m n = ground (arith, a.bound_once, a.unbound_once, a.expired_bound) in
      manage-Accounts w s b' m n (rw u h) (rw u e) a',
)

after_secret-Keeps :
    (w : World) (r : Resolved) (b : Binding) (q : Binding × Option String × Outcome)
    → b.uid ≢ ""
    → SameStatus b q.0
    → (q.2 ≡ done → q.1 ≡ some b.uid)
    → Keeps b (after_secret w r q)
after_secret-Keeps w r b (b', id, done) h same stashed =
    manage-Keeps w (stash_of r id) b b' h same (stashed refl)
after_secret-Keeps w r b (b', id, fails e) h same stashed = ended-Keeps b b' (fails e) same
after_secret-Keeps w r b (b', id, panics) h same stashed = ended-Keeps b b' panics same

after_resolved-Keeps :
    (t : Turn) (b : Binding) (r : Resolved) (o : Outcome)
    → b.uid ≢ ""
    → SameStatus b r.binding
    → Keeps b (after_resolved t r o)
after_resolved-Keeps t b r done h (u, i, x) =
    let ((u', i', x'), stashed) = reflect_same r.binding t.secret_error t.secret in
    after_secret-Keeps t.world r b (reflect_secret r.binding t.secret_error t.secret) h
      (u' ∙ u, i' ∙ i, x' ∙ x) (λ d. stashed d ∙ ap some u)
after_resolved-Keeps t b r (fails e) h same = ended-Keeps b r.binding (fails e) same
after_resolved-Keeps t b r panics h same = ended-Keeps b r.binding panics same

set_up-Keeps : (t : Turn) (b : Binding) → b.uid ≢ "" → Keeps b (set_up t b)
unfolding set_up
set_up-Keeps t b h =
    let r = resolve_service_instance_id t.ctx t.get_instance t.get_lifecycle b in
    after_resolved-Keeps t b r r.outcome h (resolve_same t.ctx t.get_instance t.get_lifecycle b)

set_ups-Accounts :
    (turns : List Turn) (b : Binding) (m n : ℕ)
    → b.uid ≢ ""
    → Accounts b m n
    → Accounts (set_ups turns b).0 (m + binds (set_ups turns b).1) (n + unbinds (set_ups turns b).1)
unfolding set_ups binds unbinds
set_ups-Accounts [] b m n u a = ground arith
set_ups-Accounts (t ∷ turns) b m n u a =
    let run = set_up t b in
    let (same, step) = set_up-Keeps t b u in
    let later =
      set_ups-Accounts turns run.binding (m + binds run.calls) (n + unbinds run.calls) (rw same u)
        (step m n a) in
    let log = (set_ups turns run.binding).1 in
    rw (binds-append run.calls log, unbinds-append run.calls log, ← add_assoc, ← add_assoc) later

-- However often the reconciler runs on a binding that has a uid and starts neither bound nor
-- expired, and whatever the instance, the lifecycle, the secret and the service answer in each run,
-- the service accepts at most one request to bind it, and no more requests to unbind it than to
-- bind it; the status tells the two numbers.
pub set_ups-bound_once :
    (turns : List Turn) (b : Binding)
    → b.uid ≢ ""
    → b.service_binding_id ≡ ""
    → b.expired ≡ false
    → let (b', log) = set_ups turns b in
      (binds log ≡ (if b'.service_binding_id == "" then 0 else 1))
      × (unbinds log ≡ (if b'.expired then 1 else 0))
      × (unbinds log ≤ binds log)
set_ups-bound_once turns b u unbound fresh =
    let start : Accounts b 0 0 = ground (arith, eq_iff b.service_binding_id "") in
    let a = set_ups-Accounts turns b 0 0 u start in
    let (b', log) = set_ups turns b in
    ground (arith, a.bound_once, a.unbound_once, a.expired_bound, eq_iff b'.service_binding_id "")
