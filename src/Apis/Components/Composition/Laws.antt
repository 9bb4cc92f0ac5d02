-- ===== src/Apis/Components/Composition/Laws.antt =====
-- What the validation of compositions accepts, exactly, at every depth of nesting.
use wa8s.Prelude.{
  ℕ, suc, ◌≤◌, ◌≡◌, ◌≢◌, ◌↔◌, ◌⊎◌, is_some, Bool, not, true, false, [], arith, refl, length, ltb,
  ◌==◌,
}
use wa8s.Field.{
  FieldPath, child, index, nil_append, require-nil_iff, pick_one-nil_iff, picks, pick_one,
  when_error, FieldError,
}
use wa8s.Apis.Meta.{Context}
use wa8s.Apis.Components.Laws.{
  IfPresent, ExactlyOne, IsValidComponentReference, IsValidOciReference, validate_present-nil_iff,
  validate_component_reference-nil_iff, validate_oci_reference-nil_iff, pick_one-two_iff,
}
use wa8s.Apis.Components.ConfigStore.Laws.{
  IsValidConfig, validate_generic_config_store_spec-nil_iff,
}
use wa8s.Apis.Components.Composition.{
  Sources, GenericCompositionSpec, Dependencies, CompositionDependency, spec, nil, cons, plain,
  nested, count, members, validate_sources, validate_generic_composition_spec,
  validate_dependencies, validate_composition_dependency,
}

abbrev pub AreValidSources : Context → Sources → Type 0
AreValidSources ctx s =
    (IfPresent (IsValidComponentReference ctx) s.ref × IfPresent IsValidConfig s.config)
    × IfPresent (IsValidOciReference ctx) s.oci

-- Which of the four sources of a dependency are there: a component, a config, an image and a nested
-- composition.
abbrev pub Has : Sources → Bool → Bool → Bool → Bool → Bool → Type 0
Has s composition ref config oci nested_ =
    ((is_some s.ref ≡ ref) × (is_some s.config ≡ config))
    × ((is_some s.oci ≡ oci) × (composition ≡ nested_))

-- One source is there, and the three others are not.
abbrev pub HasOneSource : Sources → Bool → Type 0
HasOneSource s composition =
    (Has s composition true false false false ⊎ Has s composition false true false false)
    ⊎ (Has s composition false false true false ⊎ Has s composition false false false true)

one_source_iff :
    (s : Sources) (composition : Bool)
    → (length (picks (members s composition)) ≡ 1) ↔ HasOneSource s composition
one_source_iff s composition = ground arith

-- For sources that are known, the count tells it.
pub one_source :
    (s : Sources) (composition : Bool)
    → length (picks (members s composition)) ≡ 1
    → HasOneSource s composition
one_source s composition = (one_source_iff s composition).0

one_source-nil_iff :
    (p : FieldPath) (s : Sources) (composition : Bool)
    → (pick_one p (members s composition) ≡ []) ↔ HasOneSource s composition
one_source-nil_iff p s composition =
    let iff = one_source_iff s composition in
    let one = pick_one-nil_iff p (members s composition) in
    (λ e. iff.0 (one.0 e), λ h. one.1 (iff.1 h))

-- One of script and plug, two dependencies or more, each of them valid; and so for the nested ones.
abbrev mutual
  pub IsValidComposition : Context → GenericCompositionSpec → Type 0
  IsValidComposition ctx (spec wac plug ds) =
      (ExactlyOne plug (not (wac == "")) × (2 ≤ count ds)) × AreValidDependencies ctx ds

  pub AreValidDependencies : Context → Dependencies → Type 0
  AreValidDependencies ctx nil = Unit
  AreValidDependencies ctx (cons d ds) = IsValidDependency ctx d × AreValidDependencies ctx ds

  pub IsValidDependency : Context → CompositionDependency → Type 0
  IsValidDependency ctx (plain name s) =
      ((name ≢ "") × AreValidSources ctx s) × HasOneSource s false
  IsValidDependency ctx (nested name s c) =
      (((name ≢ "") × AreValidSources ctx s) × IsValidComposition ctx c) × HasOneSource s true

validate_sources-nil_iff :
    (ctx : Context) (p : FieldPath) (s : Sources)
    → (validate_sources ctx p s ≡ []) ↔ AreValidSources ctx s
unfolding validate_sources
validate_sources-nil_iff ctx p s =
    nil_append
      (nil_append
        (validate_present-nil_iff (IsValidComponentReference ctx) _ s.ref
          (validate_component_reference-nil_iff ctx (child p "ref")))
        (validate_present-nil_iff IsValidConfig _ s.config
          (validate_generic_config_store_spec-nil_iff (child p "config"))))
      (validate_present-nil_iff (IsValidOciReference ctx) _ s.oci
        (validate_oci_reference-nil_iff ctx (child p "oci")))

two_dependencies : (n : ℕ) (e : FieldError) → (when_error (ltb n 2) e ≡ []) ↔ (2 ≤ n)
two_dependencies n e = ground arith

mutual
  unfolding validate_generic_composition_spec

  composition-nil_iff :
      (ctx : Context) (p : FieldPath) (c : GenericCompositionSpec)
      → (validate_generic_composition_spec ctx p c ≡ []) ↔ IsValidComposition ctx c
  composition-nil_iff ctx p (spec wac plug ds) =
      nil_append
        (nil_append (pick_one-two_iff p "plug" "wac" plug (not (wac == "")))
          (two_dependencies (count ds) _))
        (dependencies-nil_iff ctx (child p "dependencies") 0 ds)

  dependencies-nil_iff :
      (ctx : Context) (p : FieldPath) (i : ℕ) (ds : Dependencies)
      → (validate_dependencies ctx p i ds ≡ []) ↔ AreValidDependencies ctx ds
  dependencies-nil_iff ctx p i nil = (λ _. tt, λ _. refl)
  dependencies-nil_iff ctx p i (cons d ds) =
      nil_append (dependency-nil_iff ctx (index p i) d) (dependencies-nil_iff ctx p (suc i) ds)

  dependency-nil_iff :
      (ctx : Context) (p : FieldPath) (d : CompositionDependency)
      → (validate_composition_dependency ctx p d ≡ []) ↔ IsValidDependency ctx d
  dependency-nil_iff ctx p (plain name s) =
      nil_append
        (nil_append (require-nil_iff name (child p "component")) (validate_sources-nil_iff ctx p s))
        (one_source-nil_iff p s false)
  dependency-nil_iff ctx p (nested name s c) =
      nil_append
        (nil_append
          (nil_append (require-nil_iff name (child p "component"))
            (validate_sources-nil_iff ctx p s))
          (composition-nil_iff ctx (child p "composition") c))
        (one_source-nil_iff p s true)

-- A composition passes validation exactly when it has a script or a plug but not both, two
-- dependencies or more, and each dependency has a name and exactly one source out of a component, a
-- config, an image and a nested composition, which is valid, a nested composition in the same
-- sense.
pub validate_generic_composition_spec-nil_iff :
    (ctx : Context) (p : FieldPath) (c : GenericCompositionSpec)
    → (validate_generic_composition_spec ctx p c ≡ []) ↔ IsValidComposition ctx c
validate_generic_composition_spec-nil_iff ctx p c = composition-nil_iff ctx p c
