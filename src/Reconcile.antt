-- ===== src/Reconcile.antt =====
-- What the reconcilers share: controllers/utils.go, and the calls of the condition manager
-- (reconciler.io/runtime/apis, not part of this repository) as a log in the order of the code.
-- The texts of the messages are left out.
use wa8s.Prelude.{some, ℕ, ◌≡◌, ◌⊎◌, inl, inr, refl, String, Bool, List, [], ◌∷◌, ◌++◌}

pub data ConditionStatus : Type 0 where
  is_true is_false is_unknown : ConditionStatus

-- A call of `MarkTrue`, `MarkFalse` or `MarkUnknown`: the condition's type and the reason.
pub record Mark : Type 0 where
  pub condition : String
  pub status : ConditionStatus
  pub reason : String

-- The errors of controllers/utils.go; `transient e` is `errors.Join(e, ErrTransient)`, and `failed`
-- is any other error. `silent` is `reconcilers.ErrQuiet`, an error that is retried and not logged.
pub data Failure : Type 0 where
  durable generation_mismatch update_status halt silent : Failure
  transient failed : String → Failure

-- How a sub reconciler ends: without an error, with one, or by a panic of `RetrieveOrDie`.
pub data Outcome : Type 0 where
  done : Outcome
  fails : Failure → Outcome
  panics : Outcome

-- What an observed resource says of itself: its generations, and the answers of
-- `apis.ConditionIsTrue` and `apis.ConditionIsFalse` for its Ready condition.
pub record Observed : Type 0 where
  pub generation : ℕ
  pub observed_generation : ℕ
  pub ready_is_true : Bool
  pub ready_is_false : Bool

-- A value or the text of an error.
pub data Result {ℓ} (A : Type ℓ) : Type ℓ where
  ok : A → Result A
  err : String → Result A

pub Result-cases {ℓ} :
    {A : Type ℓ} (r : Result A) → ((x : A) × r ≡ ok x) ⊎ ((e : String) × r ≡ err e)
Result-cases (ok x) = inl (x, refl)
Result-cases (err e) = inr (e, refl)

pub some_injective {ℓ} : {A : Type ℓ} {a b : A} → some a ≡ some b → a ≡ b
some_injective h = cc

pub ok_injective {ℓ} : {A : Type ℓ} {a b : A} → ok a ≡ ok b → a ≡ b
ok_injective h = cc

-- The answer of a read from the API server.
pub data Read {ℓ} (A : Type ℓ) : Type ℓ where
  found : A → Read A
  not_found : Read A
  read_error : String → Read A

pub Read-cases {ℓ} :
    {A : Type ℓ} (r : Read A)
    → ((x : A) × r ≡ found x) ⊎ (r ≡ not_found) ⊎ ((e : String) × r ≡ read_error e)
Read-cases (found x) = inl (x, refl)
Read-cases not_found = inr (inl refl)
Read-cases (read_error e) = inr (inr (e, refl))

-- An error of the API server with the answers of `apierrs.IsInvalid` and `apierrs.IsAlreadyExists`,
-- and with `apierrs.ReasonForError`.
pub record ApiError : Type 0 where
  pub is_invalid : Bool
  pub is_already_exists : Bool
  pub text : String

-- A resource's status as a sub reconciler leaves it: its marks, with one more.
abbrev pub marked : List Mark → String → ConditionStatus → String → List Mark
marked marks condition status reason =
    marks ++ (record { condition = condition; status = status; reason = reason } ∷ [])
