-- ===== src/Services/Binding/Refinement.antt =====
-- integrations/services/internal/controllers/servicebinding_controller.go: what a service binding promises to the lifecycle service: it is bound, later it expires, and no
-- other request is ever accepted. The reconciler is shown to implement this life.
pub mod Implemented
pub mod Lives
use wa8s.Prelude.{
  ◌≡◌, ◌≢◌, ◌⊎◌, inl, inr, refl, sym, ap, ◌∙◌, String, Bool, true, false, List, [], ◌∷◌, ◌++◌,
  Option, none, some, if◌then◌else◌, ◌==◌, arith, eq_iff, Bool-cases, Option-cases, eq_cases,
}
use mathlib.Core.List.{append_assoc}
use mathlib.Core.Path.{subst}
use wa8s.Reconcile.{Outcome, done, fails, panics}
use wa8s.Services.Binding.{Binding, Stash, Call, bind, unbind, World, Run, is_over, manage}
use wa8s.Services.Binding.History.{Log}
use wa8s.Services.Binding.Setup.{
  Turn, Resolved, resolve_service_instance_id, reflect_secret, set_up, stash_of, ended,
  after_secret, after_resolved,
}
use wa8s.Services.Binding.Setup.Pipeline.{SameStatus, resolve_same, reflect_same, set_ups}

-- The abstract states.
pub data Phase : Type 0 where
  unbound bound expired : Phase

-- A step with the requests that the service accepts in it; the id is the binding's uid.
pub data Step (uid : String) : Phase → List Call → Phase → Type 0 where
  stays : (p : Phase) → Step uid p [] p
  binds :
      (address instance_id : String) (scopes : List String)
      → Step uid unbound (bind address uid instance_id scopes ∷ []) bound
  expires :
      (address instance_id : String) → Step uid bound (unbind address uid instance_id ∷ []) expired

-- The life of a binding: the requests that were accepted from its start to its phase.
pub data Life (uid : String) : List Call → Phase → Type 0 where
  fresh : Life uid [] unbound
  next :
      {log step log' : List Call} {p q : Phase}
      → Life uid log p
      → Step uid p step q
      → log' ≡ log ++ step
      → Life uid log' q

-- The phase that the status tells.
pub phase : Binding → Phase
phase b = if b.service_binding_id == "" then unbound else if b.expired then expired else bound

unfoldable pub accepted : Log → List Call
accepted [] = []
accepted ((c, none) ∷ log) = c ∷ accepted log
accepted ((c, some e) ∷ log) = accepted log

pub accepted-append : (xs ys : Log) → accepted (xs ++ ys) ≡ accepted xs ++ accepted ys
unfolding accepted
accepted-append [] ys = refl
accepted-append ((c, none) ∷ xs) ys = ap (λ (l : List Call). c ∷ l) (accepted-append xs ys)
accepted-append ((c, some e) ∷ xs) ys = accepted-append xs ys

-- A run in which the service accepts nothing, and the status stays.
abbrev pub Silent : Binding → Run → Type 0
Silent b run = (accepted run.calls ≡ []) × SameStatus b run.binding

abbrev pub Bound : Stash → Binding → Run → Type 0
Bound s b run =
    (a : String) × (i : String) × (j : String) × (s.binding_id ≡ some j)
    × (accepted run.calls ≡ bind a j i b.spec.scopes ∷ [])
    × (run.binding.uid ≡ b.uid)
    × (run.binding.service_binding_id ≡ j)
    × (run.binding.expired ≡ b.expired)

abbrev pub Expired : Stash → Binding → Run → Type 0
Expired s b run =
    (a : String) × (i : String) × (j : String) × (s.binding_id ≡ some j)
    × (accepted run.calls ≡ unbind a j i ∷ [])
    × (run.binding.uid ≡ b.uid)
    × (run.binding.service_binding_id ≡ b.service_binding_id)
    × (run.binding.expired ≡ true)

pub bind_cases :
    (w : World) (s : Stash) (b : Binding)
    → (b.service_binding_id == "") ≡ true
    → Silent b (manage w s b) ⊎ Bound s b (manage w s b)
unfolding manage accepted
bind_cases w s b h = elim (Option-cases s.address) [
  | inl ea ↦ inl (ground (arith, h, ea))
  | inr (a, ea) ↦ elim (Option-cases s.binding_id) [
    | inl ej ↦ inl (ground (arith, h, ea, ej))
    | inr (j, ej) ↦ elim (Option-cases s.instance_id) [
      | inl ei ↦ inl (ground (arith, h, ea, ej, ei))
      | inr (i, ei) ↦ elim (Option-cases (w.answer (bind a j i b.spec.scopes))) [
        | inl ok_ ↦ inr (
          a,
          i,
          j,
          ej,
          ground (arith, h, ea, ej, ei, ok_),
          ground (arith, h, ea, ej, ei, ok_),
          ground (arith, h, ea, ej, ei, ok_),
          ground (arith, h, ea, ej, ei, ok_),
        )
        | inr (r, bad) ↦ inl (ground (arith, h, ea, ej, ei, bad))
      ]
    ]
  ]
]

pub expire_cases :
    (w : World) (s : Stash) (b : Binding)
    → (b.service_binding_id == "") ≡ false
    → b.expired ≡ false
    → is_over w.now b ≡ true
    → Silent b (manage w s b) ⊎ Expired s b (manage w s b)
unfolding manage accepted
expire_cases w s b h x over = elim (Option-cases s.address) [
  | inl ea ↦ inl (ground (arith, h, over, ea))
  | inr (a, ea) ↦ elim (Option-cases s.binding_id) [
    | inl ej ↦ inl (ground (arith, h, over, ea, ej))
    | inr (j, ej) ↦ elim (Option-cases s.instance_id) [
      | inl ei ↦ inl (ground (arith, h, over, ea, ej, ei))
      | inr (i, ei) ↦ elim (Option-cases (w.answer (unbind a j i))) [
        | inl ok_ ↦ inr (
          a,
          i,
          j,
          ej,
          ground (arith, h, over, ea, ej, ei, ok_),
          ground (arith, h, over, ea, ej, ei, ok_),
          ground (arith, h, over, ea, ej, ei, ok_),
          ground (arith, h, over, ea, ej, ei, ok_),
        )
        | inr (r, bad) ↦ inl (ground (arith, h, over, ea, ej, ei, bad))
      ]
    ]
  ]
]

-- A status that the reconciler can have written, for a binding with a uid.
pub record IsSound (b : Binding) : Type 0 where
  pub has_uid : b.uid ≢ ""
  pub own_id : b.service_binding_id ≢ "" → b.service_binding_id ≡ b.uid
  pub bound_first : b.expired ≡ true → b.service_binding_id ≢ ""

-- A run of the reconciler is one step of the life, and leaves a sound status of the same binding.
abbrev pub Refines : Binding → Run → Type 0
Refines b run =
    (run.binding.uid ≡ b.uid)
    × IsSound run.binding
    × Step b.uid (phase b) (accepted run.calls) (phase run.binding)

pub phase_same : (b b' : Binding) → SameStatus b b' → phase b' ≡ phase b
unfolding phase
phase_same b b' (u, i, x) = rw (i, x) refl

pub Silent-Refines : (b : Binding) (run : Run) → IsSound b → Silent b run → Refines b run
Silent-Refines b run sound (e, same) = (
  same.0,
  record {
    has_uid = rw same.0 sound.has_uid;
    own_id = λ h. same.1 ∙ sound.own_id (rw same.1 at h) ∙ sym same.0;
    bound_first = λ h. rw same.1 (sound.bound_first (rw same.2 at h));
  },
  rw (e, phase_same b run.binding same) (stays (phase b)),
)
