-- ===== src/Services/Binding/History.antt =====
-- What holds of a service binding over any history of reconciliations, and of its expiration.
use native.Mathlib.Nat.{add_assoc}
use wa8s.Prelude.{
  ◌∙◌, ℕ, suc, ◌+◌, ◌≤◌, ◌≡◌, ◌≢◌, ◌↔◌, inl, inr, refl, String, true, false, List, [], ◌∷◌, ◌++◌,
  Option, none, some, if◌then◌else◌, ◌==◌, arith, eq_iff, All, Bool-cases,
}
use wa8s.Prelude.Int.{ℤ, ◌+ℤ◌, ◌-ℤ◌, ◌<ℤ◌, ◌≤ℤ◌, ltb_ℤ, +ℤ_parts, -ℤ_parts}
use wa8s.Services.Binding.{
  Binding, Stash, Call, bind, unbind, World, is_over, manage, finalize, after, expiration_requeue,
}

abbrev pub Log : Type 0
Log = List (Call × Option String)

-- The requests of a log that the lifecycle service accepted.
unfoldable pub binds : Log → ℕ
binds [] = 0
binds ((bind a b i s, none) ∷ log) = suc (binds log)
binds (c ∷ log) = binds log

unfoldable pub unbinds : Log → ℕ
unbinds [] = 0
unbinds ((unbind a b i, none) ∷ log) = suc (unbinds log)
unbinds (c ∷ log) = unbinds log

pub binds-append : (xs ys : Log) → binds (xs ++ ys) ≡ binds xs + binds ys
unfolding binds
binds-append [] ys = omega arith
binds-append ((bind a b i s, none) ∷ xs) ys = omega (arith, binds-append xs ys)
binds-append ((bind a b i s, some e) ∷ xs) ys = binds-append xs ys
binds-append ((unbind a b i, o) ∷ xs) ys = binds-append xs ys

pub unbinds-append : (xs ys : Log) → unbinds (xs ++ ys) ≡ unbinds xs + unbinds ys
unfolding unbinds
unbinds-append [] ys = omega arith
unbinds-append ((unbind a b i, none) ∷ xs) ys = omega (arith, unbinds-append xs ys)
unbinds-append ((unbind a b i, some e) ∷ xs) ys = unbinds-append xs ys
unbinds-append ((bind a b i s, o) ∷ xs) ys = unbinds-append xs ys

-- Reconciliations one after the other, each with its world and what the earlier reconcilers stashed.
pub history : List (World × Stash) → Binding → Binding × Log
history [] b = (b, [])
history ((w, s) ∷ turns) b =
    let run = manage w s b in let (b', log) = history turns run.binding in (b', run.calls ++ log)

-- How often the service was bound and unbound, told from the status alone.
pub record Accounts (b : Binding) (bound unbound : ℕ) : Type 0 where
  pub bound_once : bound ≡ (if b.service_binding_id == "" then 0 else 1)
  pub unbound_once : unbound ≡ (if b.expired then 1 else 0)
  pub expired_bound : b.expired ≡ true → b.service_binding_id ≢ ""

-- `ServiceBindingSecret` stashes the binding's uid as its id.
abbrev pub StashesUid : Binding → Stash → Type 0
StashesUid b s = s.binding_id ≡ some b.uid

pub manage_uid : (w : World) (s : Stash) (b : Binding) → (manage w s b).binding.uid ≡ b.uid
unfolding manage
manage_uid w s b = ground arith

pub manage-Accounts :
    (w : World) (s : Stash) (b : Binding) (m n : ℕ)
    → b.uid ≢ ""
    → StashesUid b s
    → Accounts b m n
    → Accounts
        (manage w s b).binding
        (m + binds (manage w s b).calls)
        (n + unbinds (manage w s b).calls)
unfolding manage binds unbinds
manage-Accounts w s b m n u e a = ground (arith, eq_iff b.service_binding_id "", eq_iff b.uid "")

history-Accounts :
    (turns : List (World × Stash)) (b : Binding) (m n : ℕ)
    → b.uid ≢ ""
    → All (λ t. StashesUid b t.1) turns
    → Accounts b m n
    → Accounts (history turns b).0 (m + binds (history turns b).1) (n + unbinds (history turns b).1)
unfolding history binds unbinds
history-Accounts [] b m n u e a = ground arith
history-Accounts ((w, s) ∷ turns) b m n u (e, es) a =
    let run = manage w s b in
    let later =
      history-Accounts turns run.binding (m + binds run.calls) (n + unbinds run.calls)
        (rw (manage_uid w s b) u) (rw (manage_uid w s b) es) (manage-Accounts w s b m n u e a) in
    let log = (history turns run.binding).1 in
    rw (binds-append run.calls log, unbinds-append run.calls log, ← add_assoc, ← add_assoc) later

-- A binding that starts unbound is bound at the service at most once, and its expiration unbinds it
-- at most once and only after that, however often it is reconciled, whenever and with whatever
-- answers: the status tells which of the two has happened.
pub history-bound_once :
    (turns : List (World × Stash)) (b : Binding)
    → b.uid ≢ ""
    → b.service_binding_id ≡ ""
    → b.expired ≡ false
    → All (λ t. StashesUid b t.1) turns
    → let (b', log) = history turns b in
      (binds log ≡ (if b'.service_binding_id == "" then 0 else 1))
      × (unbinds log ≡ (if b'.expired then 1 else 0))
      × (unbinds log ≤ binds log)
history-bound_once turns b u unbound fresh es =
    let start : Accounts b 0 0 = ground (arith, eq_iff b.service_binding_id "") in
    let a = history-Accounts turns b 0 0 u es start in
    let (b', log) = history turns b in
    ground (arith, a.bound_once, a.unbound_once, a.expired_bound, eq_iff b'.service_binding_id "")

manage_keeps_id :
    (w : World) (s : Stash) (b : Binding)
    → b.service_binding_id ≢ ""
    → (manage w s b).binding.service_binding_id ≡ b.service_binding_id
unfolding manage
manage_keeps_id w s b h = ground (arith, eq_iff b.service_binding_id "")

manage_keeps_spec : (w : World) (s : Stash) (b : Binding) → (manage w s b).binding.spec ≡ b.spec
unfolding manage
manage_keeps_spec w s b = ground arith

manage_keeps_expired :
    (w : World) (s : Stash) (b : Binding)
    → b.expired ≡ true
    → b.service_binding_id ≢ ""
    → ((manage w s b).binding.expired ≡ true) × ((manage w s b).calls ≡ [])
unfolding manage
manage_keeps_expired w s b x h = ground (arith, eq_iff b.service_binding_id "")

-- Reconciling a binding that has a binding id, however often, never changes that id or the spec;
-- and if it is expired it stays so and makes no further request.
pub history-keeps :
    (turns : List (World × Stash)) (b : Binding)
    → b.service_binding_id ≢ ""
    → let (b', log) = history turns b in
      (b'.service_binding_id ≡ b.service_binding_id)
      × (b'.spec ≡ b.spec)
      × (b.expired ≡ true → (b'.expired ≡ true) × (log ≡ []))
unfolding history
history-keeps [] b h = (refl, refl, λ x. (x, refl))
history-keeps ((w, s) ∷ turns) b h =
    let run = manage w s b in
    let same = manage_keeps_id w s b h in
    let later = history-keeps turns run.binding (rw same h) in
    (
      later.0 ∙ same,
      later.1 ∙ manage_keeps_spec w s b,
      λ x.
          let (still, silent) = manage_keeps_expired w s b x h in
          let (last, none_later) = later.2 still in (last, rw silent none_later),
    )

due_parts :
    (now t created d : ℤ) → (ltb_ℤ created (t -ℤ d) ≡ true) ↔ (now +ℤ (created +ℤ d -ℤ now) <ℤ t)
due_parts now t created d =
    let wait = created +ℤ d -ℤ now in
    ground (arith, +ℤ_parts created d, -ℤ_parts (created +ℤ d) now, -ℤ_parts t d, +ℤ_parts now wait)

requeue_after :
    (now wait : ℤ) (b : Binding)
    → (expiration_requeue now b).0 ≡ after wait
    → (b.expired ≡ false) × (b.created +ℤ b.spec.duration -ℤ now ≡ wait)
unfolding expiration_requeue
requeue_after now wait b r = ground arith

-- The run that is scheduled after `wait` is the first that can expire a bound binding: a run up to
-- that instant makes no request and leaves it unexpired, and a later one asks once to unbind it,
-- with the stashed address and ids, and marks it expired if the service accepts.
pub expiration_requeue-manage :
    (now wait : ℤ) (b : Binding) (w : World) (s : Stash) (a i j : String)
    → (expiration_requeue now b).0 ≡ after wait
    → b.service_binding_id ≢ ""
    → s ≡ record { address = some a; binding_id = some i; instance_id = some j }
    → (w.now ≤ℤ now +ℤ wait
        → ((manage w s b).calls ≡ []) × ((manage w s b).binding.expired ≡ false))
      × (now +ℤ wait <ℤ w.now
          → ((manage w s b).calls ≡ (unbind a i j, w.answer (unbind a i j)) ∷ [])
            × (w.answer (unbind a i j) ≡ none → (manage w s b).binding.expired ≡ true))
unfolding manage
expiration_requeue-manage now wait b w s a i j r h e =
    let (x, same) = requeue_after now wait b r in
    let due = rw same at (due_parts now w.now b.created b.spec.duration) in
    (
      λ early. elim (Bool-cases (is_over w.now b)) [
        | inl over ↦ absurd (omega (arith, due.0 over))
        | inr not_yet ↦ ground (arith, eq_iff b.service_binding_id "", not_yet)
      ],
      λ late. let over = due.1 late in ground (arith, eq_iff b.service_binding_id "", over),
    )

-- Where a bound binding is over but not yet expired, deleting it makes the request that its
-- expiration would make, with the stashed address and ids, exactly when the instance has the id of
-- the binding: for every other instance the deletion asks to unbind something else.
pub finalize-manage_iff :
    (w : World) (s : Stash) (b : Binding) (a i : String)
    → b.service_binding_id ≢ ""
    → b.expired ≡ false
    → is_over w.now b ≡ true
    → s ≡ record { address = some a; binding_id = some b.service_binding_id; instance_id = some i }
    → ((finalize w s b).calls ≡ (manage w s b).calls) ↔ (i ≡ b.service_binding_id)
unfolding finalize manage
finalize-manage_iff w s b a i h x over e =
    let id = b.service_binding_id in
    let deleted : (finalize w s b).calls ≡ (unbind a id id, w.answer (unbind a id id)) ∷ [] =
      ground (arith, eq_iff id "") in
    let ended : (manage w s b).calls ≡ (unbind a id i, w.answer (unbind a id i)) ∷ [] =
      ground (arith, eq_iff id "", over) in
    rw (deleted, ended) (λ same. cc, λ same. rw same refl)
