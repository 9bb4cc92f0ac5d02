-- ===== src/Field.antt =====
-- The errors of k8s.io/apimachinery/pkg/util/validation/field as the code builds them: every
-- constructor stands for one call of that package with its arguments, and nothing else is said of
-- them. `one_of p names` is `p.Child(fmt.Sprintf("[%s]", strings.Join(sets.List(s), ", ")))`, with
-- the names of the set `s` in the order in which the code inserts them.
use wa8s.Prelude.{
  ℕ, suc, ◌≡◌, refl, ◌↔◌, Bool, String, List, [], ◌∷◌, ◌++◌, Option, none, if◌then◌else◌, arith,
  length, ltb, eqb, All, append-eq-nil_iff, ◌==◌, ◌≢◌, false, eq_iff,
}

pub data FieldPath : Type 0 where
  new_path : String → FieldPath
  child : FieldPath → String → FieldPath
  index : FieldPath → ℕ → FieldPath
  one_of : FieldPath → List String → FieldPath

pub data FieldError : Type 0 where
  required : FieldPath → String → FieldError
  invalid : FieldPath → Option String → String → FieldError

abbrev pub ErrorList : Type 0
ErrorList = List FieldError

-- `if test { errs = append(errs, e) }` at the end of a list of errors.
abbrev pub when_error : Bool → FieldError → ErrorList
when_error b e = if b then e ∷ [] else []

-- `if s == "" { errs = append(errs, field.Required(path, "")) }`
abbrev pub require : String → FieldPath → ErrorList
require s p = when_error (s == "") (required p "")

-- The `picked` and `notPicked` sets: the names in the order of the `Insert` calls, by presence.
abbrev pub picks : List (String × Bool) → List String
picks [] = []
picks ((name, b) ∷ more) = let rest = picks more in if b then name ∷ rest else rest

abbrev pub not_picks : List (String × Bool) → List String
not_picks [] = []
not_picks ((name, b) ∷ more) = let rest = not_picks more in if b then rest else name ∷ rest

-- The two tests on `picked.Len()` that the validators of unions end with.
unfoldable pub pick_one : FieldPath → List (String × Bool) → ErrorList
pick_one p members =
    let n = length (picks members) in
    when_error (eqb n 0) (required (one_of p (not_picks members)) "pick one")
    ++ when_error (ltb 1 n) (invalid (one_of p (picks members)) none "pick one")

-- A loop `for i := range xs { errs = append(errs, xs[i].Validate(ctx, path.Index(i))...) }`.
unfoldable pub validate_each {ℓ} :
    {A : Type ℓ} → (A → FieldPath → ErrorList) → FieldPath → ℕ → List A → ErrorList
validate_each v p i [] = []
validate_each v p i (x ∷ xs) = v x (index p i) ++ validate_each v p (suc i) xs

-- The loop reports nothing exactly when no element does.
pub validate_each-nil_iff {ℓ κ} :
    {A : Type ℓ} (P : A → Type κ) (v : A → FieldPath → ErrorList) (p : FieldPath) (i : ℕ)
    (xs : List A)
    → ((x : A) (q : FieldPath) → (v x q ≡ []) ↔ P x)
    → (validate_each v p i xs ≡ []) ↔ All P xs
unfolding validate_each
validate_each-nil_iff P v p i [] h = (λ _. tt, λ _. refl)
validate_each-nil_iff P v p i (x ∷ xs) h =
    let split = append-eq-nil_iff (v x (index p i)) (validate_each v p (suc i) xs) in
    let rest = validate_each-nil_iff P v p (suc i) xs h in
    (λ e. ((h x _).0 (split.0 e).0, rest.0 (split.0 e).1), λ q. split.1 ((h x _).1 q.0, rest.1 q.1))

pub require-nil_iff : (s : String) (p : FieldPath) → (require s p ≡ []) ↔ (s ≢ "")
require-nil_iff s p = ground (arith, eq_iff s "")

-- The two tests pass exactly when one member is present.
pub pick_one-nil_iff :
    (p : FieldPath) (members : List (String × Bool))
    → (pick_one p members ≡ []) ↔ (length (picks members) ≡ 1)
unfolding pick_one
pick_one-nil_iff p members = ground arith

module _ {ℓ κ} {P : Type ℓ} {Q : Type κ} {xs ys : ErrorList} where
  -- Two groups of checks pass exactly when each does.
  pub nil_append : (xs ≡ []) ↔ P → (ys ≡ []) ↔ Q → ((xs ++ ys) ≡ []) ↔ (P × Q)
  nil_append h k =
      let split = append-eq-nil_iff xs ys in
      (λ e. (h.0 (split.0 e).0, k.0 (split.0 e).1), λ q. split.1 (h.1 q.0, k.1 q.1))

-- A check that appends one error passes exactly when its test is false.
pub when_error-nil_iff : (b : Bool) (e : FieldError) → (when_error b e ≡ []) ↔ (b ≡ false)
when_error-nil_iff b e = ground arith
