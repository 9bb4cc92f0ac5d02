-- ===== src/Registry/Chains.antt =====
-- A chain of calls that may fail has succeeded: each of the calls has.
use wa8s.Prelude.{◌≡◌, refl}
use wa8s.Reconcile.{Result, ok, err}
use wa8s.Registry.{◌>>=◌}

pub bind_ok {ℓ κ ι} :
    {A : Type ℓ} {B : Type κ} {C : Type ι} (x : Result A) (f : A → Result B) (b : B)
    → (x >>= f) ≡ ok b
    → ((a : A) → x ≡ ok a → f a ≡ ok b → C)
    → C
bind_ok (ok a) f b h go = go a refl h
bind_ok (err e) f b h go = absurd (err_lem h)
  where
    err_lem : err e ≡ ok b → ⊥
    err_lem h = cc
