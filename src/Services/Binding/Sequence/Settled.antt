-- ===== src/Services/Binding/Sequence/Settled.antt =====
-- integrations/services/internal/controllers/servicebinding_controller.go: binding settles while
-- nothing outside of the reconciler changes.
use wa8s.Prelude.{
  ◌≡◌, ◌≢◌, refl, ◌∙◌, ℕ, zero, suc, String, true, false, [], ◌∷◌, none, some, ◌==◌, arith, eq_iff,
  replicate,
}
use wa8s.Reconcile.{done, fails, update_status}
use wa8s.Services.Instance.{Lifecycle}
use wa8s.Services.Credentials.{Secret}
use wa8s.Services.Binding.{Binding, Stash, bind, Run, manage}
use wa8s.Services.Binding.Setup.{Provider, Turn, set_up}
use wa8s.Services.Binding.Setup.Pipeline.{set_ups}
use wa8s.Services.Binding.Sequence.Settling.{
  Given, IsSteady, Rests, manages, IsSteady-Given, manage-Rests,
}

set_up-Rests :
    (t : Turn) (b : Binding) (p : Provider) (l : Lifecycle) (c : Secret)
    → IsSteady t b p l c
    → b.service_binding_id ≢ ""
    → b.expired ≡ false
    → Rests b (set_up t b)
set_up-Rests t b p l c s named x =
    let (b', a, i, e, given, id, ex) = manages t b p l c s in
    let steady = IsSteady-Given t b b' p l c s given in
    let stash : Stash = record {
      address = some a;
      binding_id = some b.uid;
      instance_id = some i;
    } in
    let (calls, o, (n, sp, cr, u), id', ex') =
      manage-Rests t.world stash b' (rw id named) (rw ex x) steady.not_over in
    let (n0, sp0, cr0, u0) = given in
    rw e (calls, o, (n ∙ n0, sp ∙ sp0, cr ∙ cr0, u ∙ u0), id' ∙ id, ex' ∙ ex)

-- The first run of an unbound binding.
abbrev Binds : Binding → Run → Type 0
Binds b run =
    ((a : String) × (i : String) × (run.calls ≡ (bind a b.uid i b.spec.scopes, none) ∷ []))
    × (run.outcome ≡ fails update_status)
    × Given b run.binding
    × (run.binding.service_binding_id ≡ b.uid)
    × (run.binding.expired ≡ b.expired)

set_up-Binds :
    (t : Turn) (b : Binding) (p : Provider) (l : Lifecycle) (c : Secret)
    → IsSteady t b p l c
    → b.service_binding_id ≡ ""
    → Binds b (set_up t b)
unfolding manage
set_up-Binds t b p l c s empty =
    let (b', a, i, e, given, id, ex) = manages t b p l c s in
    let (n0, sp0, cr0, u0) = given in
    let ok_ = s.accepts (bind a b.uid i b'.spec.scopes) in
    let open_ : (b'.service_binding_id == "") ≡ true =
      ground (arith, eq_iff b'.service_binding_id "") in
    rw e (
      (a, i, ground (arith, ok_, open_, sp0)),
      ground (arith, ok_, open_),
      ground (arith, ok_, open_),
      ground (arith, ok_, open_),
      ground (arith, ok_, open_),
    )

-- Runs that have nothing to do.
set_ups_rest :
    (n : ℕ) (t : Turn) (b : Binding) (p : Provider) (l : Lifecycle) (c : Secret)
    → IsSteady t b p l c
    → b.service_binding_id ≢ ""
    → b.expired ≡ false
    → let (b', log) = set_ups (replicate n t) b in
      (log ≡ [])
      × IsSteady t b' p l c
      × (b'.service_binding_id ≡ b.service_binding_id)
      × (b'.expired ≡ false)
unfolding set_ups
set_ups_rest zero t b p l c s named x = (refl, s, refl, x)
set_ups_rest (suc n) t b p l c s named x =
    let (calls, o, given, id, ex) = set_up-Rests t b p l c s named x in
    let b' = (set_up t b).binding in
    let (log, steady, id', ex') =
      set_ups_rest n t b' p l c (IsSteady-Given t b b' p l c s given) (rw id named) (ex ∙ x) in
    (rw (calls, log) refl, steady, id' ∙ id, ex')

-- While nothing outside of the reconciler changes, that is while the instance and its lifecycle are
-- read, current and ready, the secret is written, the service accepts what it is asked, and the time
-- of the binding is not over, binding settles after one run: in however many runs, the service is
-- asked once, to bind the binding under its uid with the scopes of its spec, and the run that
-- follows them asks for nothing and ends without an error.
pub set_ups-settle :
    (n : ℕ) (t : Turn) (b : Binding) (p : Provider) (l : Lifecycle) (c : Secret)
    → IsSteady t b p l c
    → b.uid ≢ ""
    → b.service_binding_id ≡ ""
    → b.expired ≡ false
    → let (b', log) = set_ups (replicate (suc n) t) b in
      ((a : String) × (i : String) × (log ≡ (bind a b.uid i b.spec.scopes, none) ∷ []))
      × ((set_up t b').calls ≡ [])
      × ((set_up t b').outcome ≡ done)
unfolding set_ups
set_ups-settle n t b p l c s u empty x =
    let ((a, i, calls), o, given, id, ex) = set_up-Binds t b p l c s empty in
    let b1 = (set_up t b).binding in
    let named : b1.service_binding_id ≢ "" = rw id u in
    let (log, steady, id', ex') =
      set_ups_rest n t b1 p l c (IsSteady-Given t b b1 p l c s given) named (ex ∙ x) in
    let rests = set_up-Rests t (set_ups (replicate n t) b1).0 p l c steady (rw id' named) ex' in
    ((a, i, rw (calls, log) refl), rests.0, rests.1)
