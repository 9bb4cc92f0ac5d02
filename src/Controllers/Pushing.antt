-- ===== src/Controllers/Pushing.antt =====
-- controllers/duck_controller.go: `PushComponent` and `ReflectComponentableStatus` with what they need.
use wa8s.Prelude.{◌≡◌, ◌≢◌, inl, inr, String, true, is_some, Option-cases, arith}
use wa8s.Reconcile.{done, panics}
use wa8s.Controllers.{State, Externals, push_component, push_with, reflect_componentable_status}

module _ {K : Type 0} (x : Externals K) where
  push_with-lem :
      (condition : String) (st : State K) (component tag : String) (k : K)
      → let (s, o) = push_with x condition st component tag k in
        (o ≢ panics) × (o ≡ done → is_some s.digest ≡ true)
  unfolding push_with
  push_with-lem condition st component tag k = ground arith

  -- With a component, a tag and a keychain stashed, pushing does not panic, and when it ends without
  -- an error, neither does reflecting the status.
  pub push_component-lem :
      (condition : String) (st : State K)
      → is_some st.component ≡ true
      → is_some st.tag ≡ true
      → is_some st.keychain ≡ true
      → let (s, o) = push_component x condition st in
        (o ≢ panics) × (o ≡ done → (reflect_componentable_status s).1 ≡ done)
  unfolding push_component reflect_componentable_status
  push_component-lem condition st c t k = elim (Option-cases st.component) [
    | inl e ↦ absurd (ground (arith, c, e))
    | inr (component, ec) ↦ elim (Option-cases st.tag) [
      | inl e ↦ absurd (ground (arith, t, e))
      | inr (tag, et) ↦ elim (Option-cases st.keychain) [
        | inl e ↦ absurd (ground (arith, k, e))
        | inr (key, ek) ↦
            let same : push_component x condition st ≡ push_with x condition st component tag key =
              ground (arith, ec, et, ek) in
            let (calm, stashed) = push_with-lem condition st component tag key in
            rw same (calm, λ h. ground (arith, stashed h))
      ]
    ]
  ]
