-- ===== src/Apis/Components/ConfigStore/Laws.antt =====
-- What the validation of a configuration accepts, exactly.
use wa8s.Prelude.{
  ◌≡◌, ◌≢◌, ◌↔◌, ◌⊎◌, String, Option, none, [], arith, eq_iff, All, is_some, ◌==◌, not, ◌&&◌,
}
use wa8s.Field.{
  FieldPath, FieldError, child, nil_append, require-nil_iff, when_error, validate_each-nil_iff,
}
use wa8s.Apis.Components.Laws.{IfPresent, validate_present-nil_iff}
use wa8s.Apis.Components.ConfigStore.{
  ValuesFrom, ValueFrom, Value, GenericConfigStoreSpec, validate_values_from, validate_value_from,
  validate_value, validate_generic_config_store_spec,
}

-- A value has a name, and a literal or a key of a config map but not both.
abbrev pub IsValidValue : Value → Type 0
IsValidValue r =
    ((r.name ≢ "") × ((r.value ≡ "") ⊎ (r.value_from ≡ none)))
    × IfPresent (λ f. (f.name ≢ "") × (f.key ≢ "")) r.value_from

abbrev pub IsValidConfig : GenericConfigStoreSpec → Type 0
IsValidConfig r = All IsValidValue r.values × All (λ f. f.name ≢ "") r.values_from

exclusive-nil_iff :
    (value : String) (o : Option ValueFrom) (e : FieldError)
    → (when_error (not (value == "") && is_some o) e ≡ []) ↔ ((value ≡ "") ⊎ (o ≡ none))
exclusive-nil_iff value o e = ground (arith, eq_iff value "")

validate_value_from-nil_iff :
    (p : FieldPath) (r : ValueFrom)
    → (validate_value_from p r ≡ []) ↔ ((r.name ≢ "") × (r.key ≢ ""))
unfolding validate_value_from
validate_value_from-nil_iff p r =
    nil_append (require-nil_iff r.name (child p "name")) (require-nil_iff r.key (child p "key"))

validate_value-nil_iff : (r : Value) (p : FieldPath) → (validate_value r p ≡ []) ↔ IsValidValue r
unfolding validate_value
validate_value-nil_iff r p =
    nil_append
      (nil_append (require-nil_iff r.name (child p "name"))
        (exclusive-nil_iff r.value r.value_from _))
      (validate_present-nil_iff (λ f. (f.name ≢ "") × (f.key ≢ "")) _ r.value_from
        (validate_value_from-nil_iff (child p "valueFrom")))

validate_values_from-nil_iff :
    (r : ValuesFrom) (p : FieldPath) → (validate_values_from r p ≡ []) ↔ (r.name ≢ "")
unfolding validate_values_from
validate_values_from-nil_iff r p = require-nil_iff r.name (child p "name")

-- A configuration passes validation exactly when each value has a name and not both a text and a source, a
-- source has a name and a key, and each imported config map has a name.
pub validate_generic_config_store_spec-nil_iff :
    (p : FieldPath) (r : GenericConfigStoreSpec)
    → (validate_generic_config_store_spec p r ≡ []) ↔ IsValidConfig r
unfolding validate_generic_config_store_spec
validate_generic_config_store_spec-nil_iff p r =
    nil_append
      (validate_each-nil_iff IsValidValue validate_value (child p "values") 0 r.values
        validate_value-nil_iff)
      (validate_each-nil_iff (λ f. f.name ≢ "") validate_values_from (child p "valuesFrom") 0
        r.values_from validate_values_from-nil_iff)
