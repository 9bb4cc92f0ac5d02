-- ===== src/Apis/Components/Laws.antt =====
-- What the validation of components, references and configurations accepts, exactly.
use wa8s.Prelude.{
  ◌≡◌, ◌≢◌, ◌↔◌, ◌⊎◌, String, Bool, true, false, Option, none, some, [], ◌∷◌, arith, starts_with,
  Bool-cases, inl, inr, is_some, refl,
}
use wa8s.Field.{FieldPath, ErrorList, child, nil_append, require-nil_iff, pick_one}
use wa8s.Apis.Meta.{Context, HasValidAnnotations, validate_common_annotations-nil_iff}
use wa8s.Apis.Registries.Laws.{
  InScope, IsValidRepositoryReference, check_namespace-nil_iff,
  validate_repository_reference-nil_iff, validate_service_account_reference-nil_iff,
}
use wa8s.Apis.Components.{
  ComponentReference, OciReference, GenericComponentSpec, ComponentSpec, Component,
  check_scoped_namespace, validate_component_reference, validate_oci_reference, validate_present,
  validate_generic_component_spec, validate_component_spec, validate_component,
}

-- The namespace of a reference is in scope, or its kind is taken for a cluster scoped one.
abbrev pub IsScoped : Context → String → String → Type 0
IsScoped ctx kind namespace =
    (starts_with kind "Cluster" ≡ true)
    ⊎ ((starts_with kind "Cluster" ≡ false) × InScope ctx namespace)

pub check_scoped_namespace-nil_iff :
    (ctx : Context) (p : FieldPath) (kind namespace message : String)
    → (check_scoped_namespace ctx p kind namespace message ≡ []) ↔ IsScoped ctx kind namespace
check_scoped_namespace-nil_iff ctx p kind namespace message =
    elim (Bool-cases (starts_with kind "Cluster")) [
      | inl cluster ↦ rw cluster (λ _. inl refl, λ _. refl)
      | inr scoped ↦
          let rule = check_namespace-nil_iff ctx p namespace message in
          rw scoped (λ e. inr (refl, rule.0 e), elim [ inl e ↦ cc | inr q ↦ rule.1 q.1 ])
    ]

abbrev pub IsValidComponentReference : Context → ComponentReference → Type 0
IsValidComponentReference ctx r =
    (((r.api_version ≢ "") × (r.kind ≢ "")) × IsScoped ctx r.kind r.namespace) × (r.name ≢ "")

pub validate_component_reference-nil_iff :
    (ctx : Context) (p : FieldPath) (r : ComponentReference)
    → (validate_component_reference ctx p r ≡ []) ↔ IsValidComponentReference ctx r
unfolding validate_component_reference
validate_component_reference-nil_iff ctx p r =
    nil_append
      (nil_append
        (nil_append (require-nil_iff r.api_version (child p "apiVersion"))
          (require-nil_iff r.kind (child p "kind")))
        (check_scoped_namespace-nil_iff ctx p r.kind r.namespace _))
      (require-nil_iff r.name (child p "name"))

abbrev pub IsValidOciReference : Context → OciReference → Type 0
IsValidOciReference ctx r =
    (r.image ≢ "")
    × (InScope ctx r.service_account_ref.namespace × (r.service_account_ref.name ≢ ""))

pub validate_oci_reference-nil_iff :
    (ctx : Context) (p : FieldPath) (r : OciReference)
    → (validate_oci_reference ctx p r ≡ []) ↔ IsValidOciReference ctx r
unfolding validate_oci_reference
validate_oci_reference-nil_iff ctx p r = nil_append (require-nil_iff r.image (child p "image")) (
    validate_service_account_reference-nil_iff ctx (child p "serviceAccountRef")
      r.service_account_ref)

abbrev pub IfPresent {ℓ κ} : {A : Type ℓ} → (A → Type κ) → Option A → Type κ
IfPresent P none = Unit
IfPresent P (some a) = P a

pub validate_present-nil_iff {ℓ κ} :
    {A : Type ℓ} (P : A → Type κ) (v : A → ErrorList) (o : Option A)
    → ((a : A) → (v a ≡ []) ↔ P a)
    → (validate_present v o ≡ []) ↔ IfPresent P o
validate_present-nil_iff P v none h = (λ _. tt, λ _. refl)
validate_present-nil_iff P v (some a) h = h a

pub validate_generic_component_spec-nil_iff :
    (p : FieldPath) (r : GenericComponentSpec)
    → (validate_generic_component_spec p r ≡ []) ↔ IsValidRepositoryReference r.repository_ref
unfolding validate_generic_component_spec
validate_generic_component_spec-nil_iff p r =
    validate_repository_reference-nil_iff (child p "repositoryRef") r.repository_ref

-- One of two members is present, and the other is not.
abbrev pub ExactlyOne : Bool → Bool → Type 0
ExactlyOne a b = ((a ≡ true) × (b ≡ false)) ⊎ ((a ≡ false) × (b ≡ true))

pub pick_one-two_iff :
    (p : FieldPath) (m n : String) (a b : Bool)
    → (pick_one p ((m, a) ∷ (n, b) ∷ []) ≡ []) ↔ ExactlyOne a b
unfolding pick_one
pick_one-two_iff p m n a b = ground arith

-- The rules on a component's spec.
abbrev pub IsValidComponentSpec : Context → ComponentSpec → Type 0
IsValidComponentSpec ctx r =
    ((IsValidRepositoryReference r.generic.repository_ref
        × IfPresent (IsValidOciReference ctx) r.oci)
      × IfPresent (IsValidComponentReference ctx) r.ref)
    × ExactlyOne (is_some r.oci) (is_some r.ref)

pub validate_component_spec-nil_iff :
    (ctx : Context) (p : FieldPath) (r : ComponentSpec)
    → (validate_component_spec ctx p r ≡ []) ↔ IsValidComponentSpec ctx r
unfolding validate_component_spec
validate_component_spec-nil_iff ctx p r =
    nil_append
      (nil_append
        (nil_append (validate_generic_component_spec-nil_iff p r.generic) (
          validate_present-nil_iff (IsValidOciReference ctx) _ r.oci
            (validate_oci_reference-nil_iff ctx (child p "oci"))))
        (validate_present-nil_iff (IsValidComponentReference ctx) _ r.ref
          (validate_component_reference-nil_iff ctx (child p "ref"))))
      (pick_one-two_iff p "oci" "ref" (is_some r.oci) (is_some r.ref))

-- A component passes validation exactly when its annotation is one of the known values, its
-- repository and its source are valid, and it has one source, an OCI image or a reference.
pub validate_component-nil_iff :
    (ctx : Context) (p : FieldPath) (r : Component)
    → (validate_component ctx p r ≡ [])
      ↔ (HasValidAnnotations r.metadata × IsValidComponentSpec ctx r.spec)
unfolding validate_component
validate_component-nil_iff ctx p r =
    nil_append (validate_common_annotations-nil_iff p r.metadata)
      (validate_component_spec-nil_iff ctx (child p "spec") r.spec)
