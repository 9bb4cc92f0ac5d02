-- ===== src/Apis/Services/Laws.antt =====
-- What the validation of service clients and service bindings accepts, exactly.
use wa8s.Prelude.{
  ℕ, suc, ◌*◌, ◌≡◌, ◌≢◌, ◌↔◌, refl, String, Bool, true, false, List, [], ◌∷◌, arith, eq_iff, All,
  Bool-cases, eq_cases, inl, inr, not, ◌==◌, ◌&&◌, ◌||◌,
}
use wa8s.Prelude.Int.{ℤ, pos, ◌≤ℤ◌, ltb_ℤ}
use wa8s.Field.{
  FieldPath, FieldError, ErrorList, child, nil_append, require-nil_iff, when_error, new_path,
}
use wa8s.Apis.Meta.{HasValidAnnotations, validate_common_annotations-nil_iff}
use wa8s.Apis.Services.{
  ServiceBindingSpec, ServiceClientSpec, ServiceBinding, minute, hour, at_least, validate_scopes,
  validate_service_binding_spec, validate_service_client_spec, validate_service_binding, checked,
  validate_update_service_binding,
}

validate_scopes-nil_iff :
    (p : FieldPath) (i : ℕ) (scopes : List String)
    → (validate_scopes p i scopes ≡ []) ↔ All (λ s. s ≢ "") scopes
unfolding validate_scopes
validate_scopes-nil_iff p i [] = (λ _. tt, λ _. refl)
validate_scopes-nil_iff p i (s ∷ scopes) =
    nil_append (given s _) (validate_scopes-nil_iff p (suc i) scopes)
  where
    given : (s : String) (e : FieldError) → (when_error (s == "") e ≡ []) ↔ (s ≢ "")
    given s e = ground (arith, eq_iff s "")

at_least-nil_iff :
    (least : ℕ) (d : ℤ) (p : FieldPath) (message : String)
    → (at_least least d p message ≡ []) ↔ (pos least ≤ℤ d)
at_least-nil_iff least d p message = ground arith

abbrev pub IsValidBindingSpec : ServiceBindingSpec → Type 0
IsValidBindingSpec r = ((r.ref.name ≢ "") × All (λ s. s ≢ "") r.scopes) × (pos hour ≤ℤ r.duration)

pub validate_service_binding_spec-nil_iff :
    (p : FieldPath) (r : ServiceBindingSpec)
    → (validate_service_binding_spec p r ≡ []) ↔ IsValidBindingSpec r
unfolding validate_service_binding_spec
validate_service_binding_spec-nil_iff p r =
    nil_append
      (nil_append (require-nil_iff r.ref.name (child (child p "ref") "name"))
        (validate_scopes-nil_iff (child p "scopes") 0 r.scopes))
      (at_least-nil_iff hour r.duration (child p "duration") _)

abbrev pub IsValidClientSpec : ServiceClientSpec → Type 0
IsValidClientSpec r =
    ((((r.ref.name ≢ "") × All (λ s. s ≢ "") r.scopes) × (pos hour ≤ℤ r.duration))
      × (pos (5 * minute) ≤ℤ r.renew_before))
    × ((pos 0 ≤ℤ r.renew_before_percentage) × (r.renew_before_percentage ≤ℤ pos 100))

percentage-nil_iff :
    (q : ℤ) (e : FieldError)
    → (when_error (ltb_ℤ q (pos 0) || ltb_ℤ (pos 100) q) e ≡ []) ↔ ((pos 0 ≤ℤ q) × (q ≤ℤ pos 100))
percentage-nil_iff q e = ground arith

-- A client's spec passes validation exactly when it names an instance and no empty scope, lasts an
-- hour or more, renews five minutes or more ahead, and its percentage lies within 0 and 100. The
-- renewal period and the duration are not compared.
pub validate_service_client_spec-nil_iff :
    (p : FieldPath) (r : ServiceClientSpec)
    → (validate_service_client_spec p r ≡ []) ↔ IsValidClientSpec r
unfolding validate_service_client_spec
validate_service_client_spec-nil_iff p r =
    nil_append
      (nil_append
        (nil_append
          (nil_append (require-nil_iff r.ref.name (child (child p "ref") "name"))
            (validate_scopes-nil_iff (child p "scopes") 0 r.scopes))
          (at_least-nil_iff hour r.duration (child p "duration") _))
        (at_least-nil_iff (5 * minute) r.renew_before (child p "renewBefore") _))
      (percentage-nil_iff r.renew_before_percentage _)

validate_service_binding-nil_iff :
    (p : FieldPath) (r : ServiceBinding)
    → (validate_service_binding p r ≡ [])
      ↔ (HasValidAnnotations r.metadata × IsValidBindingSpec r.spec)
unfolding validate_service_binding
validate_service_binding-nil_iff p r =
    nil_append (validate_common_annotations-nil_iff p r.metadata)
      (validate_service_binding_spec-nil_iff (child p "spec") r.spec)

kept_iff :
    (old new : String) → (not (old == "") && not (new == old) ≡ false) ↔ (old ≢ "" → new ≡ old)
kept_iff old new = (
  λ e given. ground (arith, eq_iff old "", eq_iff new old),
  λ keep. elim (eq_cases old "") [
    | inl (none_yet, _) ↦ rw none_yet
    | inr (e, given) ↦ rw (e, (eq_iff new old).1 (keep given))
  ],
)

checked-nil_iff : (errs : ErrorList) → (checked errs ≡ checked []) ↔ (errs ≡ [])
checked-nil_iff errs = ground arith

module _ (equal : ServiceBindingSpec → ServiceBindingSpec → Bool)
    (equal_iff : (a b : ServiceBindingSpec) → (equal a b ≡ true) ↔ (a ≡ b)) where
  -- An update of a binding is accepted exactly when its spec is the old one, its binding id is the
  -- old one if there was one, its annotation is one of the known values, and its spec is valid.
  pub validate_update_service_binding-accepts_iff :
      (old new : ServiceBinding)
      → (validate_update_service_binding equal old new ≡ checked []) ↔ (
          (new.spec ≡ old.spec)
          × (old.service_binding_id ≢ "" → new.service_binding_id ≡ old.service_binding_id)
          × HasValidAnnotations new.metadata
          × IsValidBindingSpec new.spec)
  unfolding validate_update_service_binding
  validate_update_service_binding-accepts_iff old new =
      let valid = validate_service_binding-nil_iff (new_path "") new in
      let passed = checked-nil_iff (validate_service_binding (new_path "") new) in
      let changed =
        not (old.service_binding_id == "")
        && not (new.service_binding_id == old.service_binding_id) in
      elim (Bool-cases (equal new.spec old.spec)) [
        | inr differ ↦ rw differ ((λ e. cc), λ q. cc ((equal_iff new.spec old.spec).1 q.0))
        | inl same ↦ rw same (elim (Bool-cases changed) [
          | inl other ↦ rw other ((λ e. cc), λ q. cc ((kept_iff _ _).1 q.1))
          | inr kept ↦ rw kept (
            (λ e.
                let v = valid.0 (passed.0 e) in
                (
                  (equal_iff _ _).0 same,
                  (kept_iff old.service_binding_id new.service_binding_id).0 kept,
                  v.0,
                  v.1,
                )),
            λ q. passed.1 (valid.1 (q.2, q.3)),
          )
        ])
      ]
