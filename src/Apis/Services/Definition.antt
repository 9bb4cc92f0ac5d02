-- ===== src/Apis/Services/Definition.antt =====
-- integrations/services/apis/services/v1alpha1/serviceresourcedefinition_webhook.go: the names of a
-- service resource definition.
pub mod Spec
use wa8s.Prelude.{
  ◌+◌, ◌≡◌, refl, String, Bool, true, false, not, ◌||◌, List, [], ◌∷◌, ◌++◌, Option, none, some,
  if◌then◌else◌, ◌==◌, arith, length, length-append, Bool-cases, inl, inr,
}
use wa8s.Field.{FieldPath, ErrorList, child, require, when_error, invalid}

pub record ServiceResourceDefinitionNames : Type 0 where
  pub plural : String
  pub short_names : List String
  pub kind : String
  pub categories : List String

-- `sets.NewString(xs...).Has(x)`
unfoldable pub contains : String → List String → Bool
contains x [] = false
contains x (y ∷ ys) = y == x || contains x ys

abbrev append_unless : Bool → String → List String → List String
append_unless b x xs = if b then xs else xs ++ (x ∷ [])

-- Both tests read the categories that were given.
unfoldable pub default_names : ServiceResourceDefinitionNames → ServiceResourceDefinitionNames
unfolding contains
default_names r = record r {
  categories =
      append_unless (contains "wa8s-services" r.categories) "services"
        (append_unless (contains "wa8s" r.categories) "wa8s" r.categories);
}

-- Go's `strings.ToUpper` and `strings.ToLower`, and `s[0:1]` of a text that is not empty.
pub record Letters : Type 0 where
  pub to_upper : String → String
  pub to_lower : String → String
  pub initial : String → String

-- `none` is a panic: `r.Kind[0:1]` is out of range where the kind is empty.
unfoldable pub validate_names :
    Letters → FieldPath → ServiceResourceDefinitionNames → Option ErrorList
validate_names go p r =
    if r.kind == ""
    then none
    else some (
        when_error (not (go.to_upper (go.initial r.kind) == go.initial r.kind))
          (invalid (child p "kind") (some r.kind) "must be camel case")
        ++ require r.plural (child p "plural")
        ++ when_error (not (go.to_lower r.plural == r.plural))
            (invalid (child p "kind") (some r.kind) "must be lower case"))

contains-append :
    (x : String) (xs ys : List String) → contains x (xs ++ ys) ≡ (contains x xs || contains x ys)
unfolding contains
contains-append x [] ys = refl
contains-append x (y ∷ xs) ys = ground (arith, contains-append x xs ys)

still_missing :
    (b : Bool) (xs : List String)
    → contains "wa8s-services" xs ≡ false
    → contains "wa8s-services" (append_unless b "wa8s" xs ++ ("services" ∷ [])) ≡ false
unfolding contains
still_missing true xs h = rw (contains-append, h)
still_missing false xs h = rw (contains-append, contains-append, h)

now_there :
    (xs : List String)
    → contains "wa8s" (append_unless (contains "wa8s" xs) "wa8s" xs ++ ("services" ∷ [])) ≡ true
unfolding contains
now_there xs = elim (Bool-cases (contains "wa8s" xs)) [
  | inl old ↦ rw (old, contains-append, old)
  | inr new ↦ rw (new, contains-append, contains-append, new)
]

-- Defaulting looks for `wa8s-services` and appends `services`: where the first was not given,
-- defaulting the defaulted names makes the list of categories one longer.
pub default_names-grows :
    (r : ServiceResourceDefinitionNames)
    → contains "wa8s-services" r.categories ≡ false
    → length (default_names (default_names r)).categories ≡ length (default_names r).categories + 1
unfolding default_names
default_names-grows r h =
    let first = append_unless (contains "wa8s" r.categories) "wa8s" r.categories in
    rw (
      h,
      still_missing (contains "wa8s" r.categories) r.categories h,
      now_there r.categories,
      length-append (first ++ ("services" ∷ [])) ("services" ∷ []),
    )
