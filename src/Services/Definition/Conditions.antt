-- ===== src/Services/Definition/Conditions.antt =====
-- integrations/services/internal/controllers/serviceresourcedefinition_controller.go: how each step
-- leaves the conditions of a definition.
use wa8s.Prelude.{
  ◌≡◌, ◌↔◌, ◌⊎◌, inl, inr, refl, String, Bool, true, false, List, [], ◌∷◌, ◌++◌, Option, none, some,
  if◌then◌else◌, ◌==◌, arith, eq_iff, Bool-cases, ◌∙◌, eq_refl, Option-cases,
}
use wa8s.Reconcile.{
  Mark, ConditionStatus, is_true, is_false, is_unknown, ApiError, Outcome, done, fails, panics,
}
use wa8s.Apis.Meta.{or_empty}
use wa8s.Services.Definition.{
  Definition, mark_definition, established, reflect_lifecycle, reflect_crd, reflect_duck,
  reflect_error,
}
use wa8s.Services.Definition.Steps.{
  Run, latest, says_true, condition_is_true, and_then, run_manager,
}

latest-append :
    (c : String) (b : Bool) (ms : List Mark) (m : Mark)
    → latest c b (ms ++ (m ∷ [])) ≡ (if m.condition == c then says_true m.status else latest c b ms)
unfolding latest
latest-append c b [] m = refl
latest-append c b (n ∷ ms) m =
    latest-append c (if n.condition == c then says_true n.status else b) ms m

-- A condition after a mark: of its own, or of another condition.
mark_self :
    (r : Definition) (c : String) (s : ConditionStatus) (reason : String)
    → condition_is_true c (mark_definition r c s reason) ≡ says_true s
mark_self r c s reason = let same = eq_refl c in latest-append c false r.marks _ ∙ rw same refl

mark_other :
    (r : Definition) (c c' : String) (s : ConditionStatus) (reason : String)
    → (c == c') ≡ false
    → condition_is_true c' (mark_definition r c s reason) ≡ condition_is_true c' r
mark_other r c c' s reason ne = latest-append c' false r.marks _ ∙ rw ne refl

-- The errors that a child's reconciler puts into the status and goes on after.
abbrev pub IsInvalid : Option ApiError → Type 0
IsInvalid none = Unit
IsInvalid (some e) = e.is_invalid ≡ true

abbrev pub IsSettled : Option ApiError → Type 0
IsSettled none = Unit
IsSettled (some e) = (e.is_invalid ≡ true) ⊎ (e.is_already_exists ≡ true)

-- A definition that was written and that the API server has established.
abbrev pub IsEstablished : Option ApiError → Option (List (String × String)) → Type 0
IsEstablished e child =
    (e ≡ none)
    × ((cs : List (String × String)) × (child ≡ some cs) × (established cs ≡ some "True"))

pub lifecycle_done :
    (r : Definition) (e : Option ApiError) (child : Option ConditionStatus)
    → ((reflect_lifecycle r e child).1 ≡ done) ↔ IsInvalid e
unfolding reflect_lifecycle
lifecycle_done r none none = (λ _. tt, λ _. refl)
lifecycle_done r none (some is_true) = (λ _. tt, λ _. refl)
lifecycle_done r none (some is_false) = (λ _. tt, λ _. refl)
lifecycle_done r none (some is_unknown) = (λ _. tt, λ _. refl)
lifecycle_done r (some e) child = ground arith

-- How a step leaves the conditions: it is not done, or its own condition says `own`.
abbrev pub Others : String → Definition → Definition → Type 0
Others c r r' = (c' : String) → (c == c') ≡ false → condition_is_true c' r' ≡ condition_is_true c' r

mark-Others :
    (r : Definition) (c : String) (s : ConditionStatus) (reason : String)
    → Others c r (mark_definition r c s reason)
mark-Others r c s reason c' ne = mark_other r c c' s reason ne

error_lem :
    (c : String) (r : Definition) (e : ApiError)
    → let (r', o) = reflect_error c r e in
      ((o ≡ done) ↔ IsSettled (some e)) × (condition_is_true c r' ≡ false) × Others c r r'
error_lem c r e = elim (Bool-cases e.is_invalid) [
  | inl i ↦ rw i ((λ _. inl refl, λ _. refl), mark_self r c is_false _, mark-Others r c is_false _)
  | inr n ↦ elim (Bool-cases e.is_already_exists) [
    | inl a ↦
        rw (n, a) ((λ _. inr refl, λ _. refl), mark_self r c is_false _, mark-Others r c is_false _)
    | inr b ↦
        rw (n, b)
          (
            (λ p. absurd (cc), elim [ inl p ↦ cc | inr p ↦ cc ]),
            mark_self r c is_unknown _,
            mark-Others r c is_unknown _,
          )
  ]
]

status_cases : (o : Option String) → ((or_empty o == "True") ≡ true) ↔ (o ≡ some "True")
status_cases none = (λ p. cc, λ p. cc)
status_cases (some s) = ground (arith, eq_iff s "True")

abbrev not_established : Option String → ConditionStatus
not_established o = if or_empty o == "False" then is_false else is_unknown

says_not_established : (o : Option String) → says_true (not_established o) ≡ false
says_not_established o = ground arith

pub crd_lem :
    (c : String) (r : Definition) (e : Option ApiError) (child : Option (List (String × String)))
    → let (r', o) = reflect_crd c r e child in
      (IsEstablished e child → o ≡ done)
      × ((condition_is_true c r' ≡ true) ↔ IsEstablished e child)
      × Others c r r'
unfolding reflect_crd
crd_lem c r (some e) child =
    let (_, own, others) = error_lem c r e in
    (λ h. absurd (let p = h.0 in cc), (λ p. absurd (cc), λ h. absurd (let p = h.0 in cc)), others)
crd_lem c r none none = (
  λ h. absurd (let p = h.1.1 in cc),
  (
    λ p. absurd (let own = mark_self r c is_false "Missing" in cc),
    λ h. absurd (let p = h.1.1 in cc),
  ),
  mark-Others r c is_false "Missing",
)
crd_lem c r none (some cs) =
    let iff = status_cases (established cs) in
    elim (Bool-cases (or_empty (established cs) == "True")) [
      | inl t ↦ rw t (
        λ h. refl,
        (λ p. (refl, (cs, refl, iff.0 t)), λ h. mark_self r c is_true "Established"),
        mark-Others r c is_true "Established",
      )
      | inr f ↦ rw f (
        λ h. refl,
        (
          λ p. absurd (
              let own = mark_self r c (not_established (established cs)) "NotEstablished" in
              let never = says_not_established (established cs) in cc),
          λ h. absurd (
              let p = h.1.1 in
              let q = h.1.2 in let same : cs ≡ h.1.0 = cc in let yes_ = iff.1 (rw same q) in cc),
        ),
        mark-Others r c (not_established (established cs)) "NotEstablished",
      )
    ]

pub duck_lem :
    (r : Definition) (e : Option ApiError) (child : Option ConditionStatus)
    → let (r', o) = reflect_duck r e child in
      ((o ≡ done) ↔ IsSettled e) × Others "ClientComponentDuckReady" r r'
unfolding reflect_duck
duck_lem r (some e) child =
    let (iff, _, others) = error_lem "ClientComponentDuckReady" r e in (iff, others)
duck_lem r none none = ((λ _. tt, λ _. refl), mark-Others r _ _ _)
duck_lem r none (some is_true) = ((λ _. tt, λ _. refl), mark-Others r _ _ _)
duck_lem r none (some is_false) = ((λ _. tt, λ _. refl), mark-Others r _ _ _)
duck_lem r none (some is_unknown) = ((λ _. tt, λ _. refl), mark-Others r _ _ _)

pub and_then_started :
    (q : Definition × Outcome) (k : Definition → Run)
    → ((and_then q k).started ≡ true) ↔ ((q.1 ≡ done) × ((k q.0).started ≡ true))
and_then_started (r, done) k = (λ h. (refl, h), λ h. h.1)
and_then_started (r, fails e) k = (λ h. absurd (cc), λ h. absurd (let p = h.0 in cc))
and_then_started (r, panics) k = (λ h. absurd (cc), λ h. absurd (let p = h.0 in cc))

pub run_manager_started :
    (manager : Option String) (r : Definition)
    → ((run_manager manager r).started ≡ true) ↔ (
        (condition_is_true "InstanceDefinitionReady" r ≡ true)
        × (condition_is_true "ClientDefinitionReady" r ≡ true))
unfolding run_manager
run_manager_started manager r = elim (Bool-cases (condition_is_true "InstanceDefinitionReady" r)) [
  | inl i ↦ elim (Bool-cases (condition_is_true "ClientDefinitionReady" r)) [
    | inl c ↦ elim (Option-cases manager) [
      | inl e ↦ rw (i, c, e) ((λ _. (refl, refl)), λ _. refl)
      | inr (t, e) ↦ rw (i, c, e) ((λ _. (refl, refl)), λ _. refl)
    ]
    | inr c ↦ rw (i, c) (λ p. absurd (cc), λ h. absurd (let p = h.1 in cc))
  ]
  | inr i ↦ rw i (λ p. absurd (cc), λ h. absurd (let p = h.0 in cc))
]
