-- ===== src/Apis/Services/Definition/Spec.antt =====
-- integrations/services/apis/services/v1alpha1/serviceresourcedefinition_webhook.go: service resource
-- definitions. They are cluster scoped.
use wa8s.Prelude.{◌≡◌, ◌↔◌, ◌⊎◌, inl, inr, refl, String, ◌++◌, Option, none, some, arith, eq_cases}
use wa8s.Field.{FieldPath, ErrorList, new_path, child}
use wa8s.Apis.Meta.{ObjectMeta, Context, stash_resource, validate_common_annotations}
use wa8s.Apis.Services.Lifecycle.{
  ServiceLifecycleSpec, default_service_lifecycle_spec, validate_service_lifecycle_spec,
}
use wa8s.Apis.Services.Definition.{
  ServiceResourceDefinitionNames, Letters, default_names, validate_names,
}

pub record ServiceResourceDefinitionSpec : Type 0 where
  pub group : String
  pub instance_names : ServiceResourceDefinitionNames
  pub client_names : ServiceResourceDefinitionNames
  pub lifecycle : ServiceLifecycleSpec

unfoldable pub default_definition_spec :
    Context → ServiceResourceDefinitionSpec → ServiceResourceDefinitionSpec
unfolding default_names default_service_lifecycle_spec
default_definition_spec ctx r = record r {
  instance_names = default_names r.instance_names;
  client_names = default_names r.client_names;
  lifecycle = default_service_lifecycle_spec ctx r.lifecycle;
}

-- Errors after errors, where `none` is a panic.
abbrev and_errors : Option ErrorList → Option ErrorList → Option ErrorList
and_errors none ys = none
and_errors (some xs) none = none
and_errors (some xs) (some ys) = some (xs ++ ys)

unfoldable pub validate_definition_spec :
    Letters → Context → FieldPath → ServiceResourceDefinitionSpec → Option ErrorList
unfolding validate_names
validate_definition_spec go ctx p r =
    and_errors (validate_names go (child p "instanceNames") r.instance_names) (
      and_errors (validate_names go (child p "clientNames") r.client_names)
        (some (validate_service_lifecycle_spec ctx (child p "lifecycle") r.lifecycle)))

unfoldable pub validate_definition :
    Letters → Context → FieldPath → ObjectMeta → ServiceResourceDefinitionSpec → Option ErrorList
unfolding validate_definition_spec
validate_definition go ctx p metadata r =
    and_errors (some (validate_common_annotations p metadata))
      (validate_definition_spec go ctx (child p "spec") r)

-- `ValidateCreate`, and `ValidateUpdate` of the new object, from its metadata and its spec.
unfoldable pub validate_create_definition :
    Letters → Context → ObjectMeta → ServiceResourceDefinitionSpec → Option ErrorList
unfolding validate_definition default_definition_spec
validate_create_definition go ctx metadata r =
    let ctx' = stash_resource ctx metadata in
    validate_definition go ctx' (new_path "") metadata (default_definition_spec ctx' r)

validate_names-none_iff :
    (go : Letters) (p : FieldPath) (r : ServiceResourceDefinitionNames)
    → (validate_names go p (default_names r) ≡ none) ↔ (r.kind ≡ "")
unfolding validate_names default_names
validate_names-none_iff go p r = elim (eq_cases r.kind "") [
  | inl (b, e) ↦ (λ h. e, λ h. ground (arith, b))
  | inr (b, n) ↦ (λ h. absurd (ground (arith, b)), λ h. absurd (n h))
]

and_errors-none_iff :
    (xs ys : Option ErrorList) (zs : ErrorList)
    → (and_errors xs (and_errors ys (some zs)) ≡ none) ↔ ((xs ≡ none) ⊎ (ys ≡ none))
and_errors-none_iff none ys zs = (λ h. inl refl, λ h. refl)
and_errors-none_iff (some xs) none zs = (λ h. inr refl, λ h. refl)
and_errors-none_iff (some xs) (some ys) zs =
    (λ h. absurd (cc), λ h. elim h [ inl e ↦ absurd (cc) | inr e ↦ absurd (cc) ])

some_errors-none_iff :
    (xs : ErrorList) (ys : Option ErrorList) → (and_errors (some xs) ys ≡ none) ↔ (ys ≡ none)
some_errors-none_iff xs none = (λ h. refl, λ h. refl)
some_errors-none_iff xs (some ys) = (λ h. absurd (cc), λ h. absurd (cc))

-- The webhook panics exactly on a definition that leaves out the kind of its instances or that of its
-- clients, which defaulting does not fill in; it reports no error for it.
pub validate_create_definition-panics_iff :
    (go : Letters) (ctx : Context) (metadata : ObjectMeta) (r : ServiceResourceDefinitionSpec)
    → (validate_create_definition go ctx metadata r ≡ none)
      ↔ ((r.instance_names.kind ≡ "") ⊎ (r.client_names.kind ≡ ""))
unfolding validate_create_definition validate_definition validate_definition_spec
    default_definition_spec
validate_create_definition-panics_iff go ctx metadata r =
    let ctx' = stash_resource ctx metadata in
    let p = child (new_path "") "spec" in
    let d = default_definition_spec ctx' r in
    let mine = validate_names-none_iff go (child p "instanceNames") r.instance_names in
    let theirs = validate_names-none_iff go (child p "clientNames") r.client_names in
    let both =
      and_errors-none_iff (validate_names go (child p "instanceNames") d.instance_names)
        (validate_names go (child p "clientNames") d.client_names)
        (validate_service_lifecycle_spec ctx' (child p "lifecycle") d.lifecycle) in
    let all =
      some_errors-none_iff (validate_common_annotations (new_path "") metadata)
        (validate_definition_spec go ctx' p d) in
    (
      λ h. elim (both.0 (all.0 h)) [ inl e ↦ inl (mine.0 e) | inr e ↦ inr (theirs.0 e) ],
      λ h. all.1 (both.1 (elim h [ inl e ↦ inl (mine.1 e) | inr e ↦ inr (theirs.1 e) ])),
    )
