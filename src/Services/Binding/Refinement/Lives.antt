-- ===== src/Services/Binding/Refinement/Lives.antt =====
-- integrations/services/internal/controllers/servicebinding_controller.go: histories of the first
-- three steps of the reconciler are lives of the binding.
use wa8s.Prelude.{
  ◌≡◌, ◌≢◌, refl, sym, ap, ◌∙◌, String, false, List, [], ◌∷◌, ◌++◌, Option, some, arith, eq_iff,
}
use mathlib.Core.List.{append_assoc, append-nil}
use wa8s.Reconcile.{Outcome, done, fails, panics}
use wa8s.Services.Binding.{Binding, Call, bind, unbind, World, manage}
use wa8s.Services.Binding.Setup.{
  Turn, Resolved, resolve_service_instance_id, reflect_secret, set_up, stash_of, ended,
  after_secret, after_resolved,
}
use wa8s.Services.Binding.Setup.Pipeline.{SameStatus, resolve_same, reflect_same, set_ups}
use wa8s.Services.Binding.Refinement.{
  Phase, unbound, bound, expired, stays, binds, expires, Life, fresh, next, phase, accepted,
  accepted-append, IsSound, Refines, Silent-Refines,
}
use wa8s.Services.Binding.Refinement.Implemented.{manage-Refines, Same-IsSound, Refines-same}

ended-Refines :
    (b b' : Binding) (o : Outcome) → IsSound b → SameStatus b b' → Refines b (ended b' o)
unfolding accepted
ended-Refines b b' o sound same = Silent-Refines b (ended b' o) sound (refl, same)

after_secret-Refines :
    (w : World) (r : Resolved) (b : Binding) (q : Binding × Option String × Outcome)
    → IsSound b
    → SameStatus b q.0
    → (q.2 ≡ done → q.1 ≡ some b.uid)
    → Refines b (after_secret w r q)
after_secret-Refines w r b (b', id, done) sound same stashed =
    Refines-same b b' (manage w (stash_of r id) b') same (
      manage-Refines w (stash_of r id) b' (Same-IsSound b b' same sound)
        (stashed refl ∙ ap some (sym same.0)))
after_secret-Refines w r b (b', id, fails e) sound same stashed =
    ended-Refines b b' (fails e) sound same
after_secret-Refines w r b (b', id, panics) sound same stashed =
    ended-Refines b b' panics sound same

after_resolved-Refines :
    (t : Turn) (b : Binding) (r : Resolved) (o : Outcome)
    → IsSound b
    → SameStatus b r.binding
    → Refines b (after_resolved t r o)
after_resolved-Refines t b r done sound (u, i, x) =
    let ((u', i', x'), stashed) = reflect_same r.binding t.secret_error t.secret in
    after_secret-Refines t.world r b (reflect_secret r.binding t.secret_error t.secret) sound
      (u' ∙ u, i' ∙ i, x' ∙ x) (λ d. stashed d ∙ ap some u)
after_resolved-Refines t b r (fails e) sound same = ended-Refines b r.binding (fails e) sound same
after_resolved-Refines t b r panics sound same = ended-Refines b r.binding panics sound same

-- The first three steps of the reconciler are one step of the life.
pub set_up-Refines : (t : Turn) (b : Binding) → IsSound b → Refines b (set_up t b)
unfolding set_up
set_up-Refines t b sound =
    let r = resolve_service_instance_id t.ctx t.get_instance t.get_lifecycle b in
    after_resolved-Refines t b r r.outcome sound
      (resolve_same t.ctx t.get_instance t.get_lifecycle b)

set_ups_live :
    (turns : List Turn) (b : Binding) (log : List Call)
    → IsSound b
    → Life b.uid log (phase b)
    → let (b', calls) = set_ups turns b in Life b.uid (log ++ accepted calls) (phase b')
unfolding set_ups accepted
set_ups_live [] b log sound life = rw (append-nil log) life
set_ups_live (t ∷ turns) b log sound life =
    let run = set_up t b in
    let (u, sound', step) = set_up-Refines t b sound in
    let life' : Life run.binding.uid (log ++ accepted run.calls) (phase run.binding) =
      rw u (next life step refl) in
    let later = set_ups_live turns run.binding (log ++ accepted run.calls) sound' life' in
    let calls = (set_ups turns run.binding).1 in
    rw (accepted-append run.calls calls, ← append_assoc log (accepted run.calls) (accepted calls))
      (rw u at later)

-- The requests that a life consists of, told from its phase.
abbrev pub Requests : String → Phase → List Call → Type 0
Requests uid unbound log = log ≡ []
Requests uid bound log =
    (a : String) × (i : String) × (s : List String) × (log ≡ bind a uid i s ∷ [])
Requests uid expired log =
    (a : String) × (i : String) × (s : List String) × (a' : String) × (i' : String) × (log
      ≡ bind a uid i s ∷ unbind a' uid i' ∷ [])

Life-Requests : {uid : String} {log : List Call} {p : Phase} → Life uid log p → Requests uid p log
Life-Requests fresh = refl
Life-Requests {uid} (next {log} life (stays p) e) = rw (e, append-nil log) (Life-Requests life)
Life-Requests (next life (binds a i s) e) =
    let before = Life-Requests life in (a, i, s, e ∙ rw before refl)
Life-Requests (next life (expires a' i') e) =
    let (a, i, s, before) = Life-Requests life in (a, i, s, a', i', e ∙ rw before refl)

-- The reconciler implements the life of a binding. However often its first three steps run on a
-- binding that has a uid and starts neither bound nor expired, and whatever the instance, the
-- lifecycle, the secret, the clock and the service answer in each run, the requests that the service
-- accepted are, in this order: none while the status says unbound; one to bind it, under its uid,
-- once the status says bound; and that one and then one to unbind it, once the status says expired.
pub set_ups-implements_life :
    (turns : List Turn) (b : Binding)
    → b.uid ≢ ""
    → b.service_binding_id ≡ ""
    → b.expired ≡ false
    → let (b', calls) = set_ups turns b in Requests b.uid (phase b') (accepted calls)
unfolding phase
set_ups-implements_life turns b u empty fresh_ =
    let sound : IsSound b = record {
      has_uid = u;
      own_id = λ h. absurd (h empty);
      bound_first = λ h. absurd (cc);
    } in
    let start : phase b ≡ unbound = ground (arith, eq_iff b.service_binding_id "") in
    Life-Requests (set_ups_live turns b [] sound (rw start fresh))
