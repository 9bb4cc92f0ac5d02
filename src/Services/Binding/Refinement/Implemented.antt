-- ===== src/Services/Binding/Refinement/Implemented.antt =====
-- integrations/services/internal/controllers/servicebinding_controller.go: `ManageServiceBinding`
-- implements the life of a binding.
use wa8s.Prelude.{
  ◌≡◌, ◌≢◌, inl, inr, refl, sym, ◌∙◌, String, true, false, some, ◌==◌, arith, eq_iff, Bool-cases,
  eq_cases,
}
use wa8s.Reconcile.{done}
use wa8s.Services.Binding.{Binding, Stash, World, Run, is_over, manage}
use wa8s.Services.Binding.Setup.{ended}
use wa8s.Services.Binding.Setup.Pipeline.{SameStatus}
use wa8s.Services.Binding.Refinement.{
  unbound, bound, expired, Step, binds, expires, phase, accepted, Silent, Bound, Expired,
  bind_cases, expire_cases, IsSound, Refines, phase_same, Silent-Refines,
}

some_injective : (x y : String) → some x ≡ some y → x ≡ y
some_injective x y h = cc

Bound-Refines :
    (s : Stash) (b : Binding) (run : Run)
    → IsSound b
    → s.binding_id ≡ some b.uid
    → b.service_binding_id ≡ ""
    → Bound s b run
    → Refines b run
unfolding phase
Bound-Refines s b run sound stashed empty (a, i, j, ej, calls, u, id, x) =
    let own : j ≡ b.uid = some_injective j b.uid (sym ej ∙ stashed) in
    let fresh_ : b.expired ≡ false = elim (Bool-cases b.expired) [
      | inl t ↦ absurd (sound.bound_first t empty)
      | inr f ↦ f
    ] in
    let named : run.binding.service_binding_id ≢ "" = rw (id, own) sound.has_uid in
    let before : phase b ≡ unbound = ground (arith, eq_iff b.service_binding_id "") in
    let after_ : phase run.binding ≡ bound =
      ground (arith, eq_iff run.binding.service_binding_id "", x, fresh_) in
    (
      u,
      record {
        has_uid = rw u sound.has_uid;
        own_id = λ h. id ∙ own ∙ sym u;
        bound_first = λ h. named;
      },
      rw (before, after_, calls, own) (binds a i b.spec.scopes),
    )

Expired-Refines :
    (s : Stash) (b : Binding) (run : Run)
    → IsSound b
    → s.binding_id ≡ some b.uid
    → b.service_binding_id ≢ ""
    → b.expired ≡ false
    → Expired s b run
    → Refines b run
unfolding phase
Expired-Refines s b run sound stashed named fresh_ (a, i, j, ej, calls, u, id, x) =
    let own : j ≡ b.uid = some_injective j b.uid (sym ej ∙ stashed) in
    let still : run.binding.service_binding_id ≢ "" = rw id named in
    let before : phase b ≡ bound = ground (arith, eq_iff b.service_binding_id "") in
    let after_ : phase run.binding ≡ expired =
      ground (arith, eq_iff run.binding.service_binding_id "", x) in
    (
      u,
      record {
        has_uid = rw u sound.has_uid;
        own_id = λ h. id ∙ sound.own_id named ∙ sym u;
        bound_first = λ h. still;
      },
      rw (before, after_, calls, own) (expires a i),
    )

quiet_expired :
    (w : World) (s : Stash) (b : Binding)
    → (b.service_binding_id == "") ≡ false
    → b.expired ≡ true
    → Silent b (manage w s b)
unfolding manage accepted
quiet_expired w s b h x = ground (arith, h)

quiet_bound :
    (w : World) (s : Stash) (b : Binding)
    → (b.service_binding_id == "") ≡ false
    → b.expired ≡ false
    → is_over w.now b ≡ false
    → Silent b (manage w s b)
unfolding manage accepted
quiet_bound w s b h x over = ground (arith, h, over)

-- `ManageServiceBinding`, given the binding's uid as its id, takes one step.
pub manage-Refines :
    (w : World) (s : Stash) (b : Binding)
    → IsSound b
    → s.binding_id ≡ some b.uid
    → Refines b (manage w s b)
manage-Refines w s b sound stashed = elim (eq_cases b.service_binding_id "") [
  | inl (h, empty) ↦ elim (bind_cases w s b h) [
    | inl silent ↦ Silent-Refines b (manage w s b) sound silent
    | inr done_ ↦ Bound-Refines s b (manage w s b) sound stashed empty done_
  ]
  | inr (h, named) ↦ elim (Bool-cases b.expired) [
    | inl x ↦ Silent-Refines b (manage w s b) sound (quiet_expired w s b h x)
    | inr x ↦ elim (Bool-cases (is_over w.now b)) [
      | inr early ↦ Silent-Refines b (manage w s b) sound (quiet_bound w s b h x early)
      | inl over ↦ elim (expire_cases w s b h x over) [
        | inl silent ↦ Silent-Refines b (manage w s b) sound silent
        | inr done_ ↦ Expired-Refines s b (manage w s b) sound stashed named x done_
      ]
    ]
  ]
]

-- The steps before keep what the phase is told from.
pub Same-IsSound : (b b' : Binding) → SameStatus b b' → IsSound b → IsSound b'
unfolding accepted
Same-IsSound b b' same sound = (Silent-Refines b (ended b' done) sound (refl, same)).1

pub Refines-same : (b b' : Binding) (run : Run) → SameStatus b b' → Refines b' run → Refines b run
Refines-same b b' run same (u, sound, step) =
    let moved : Step b.uid (phase b) (accepted run.calls) (phase run.binding) =
      rw (← phase_same b b' same, ← same.0) step in
    (u ∙ same.0, sound, moved)
