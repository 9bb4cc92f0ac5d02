-- ===== src/Apis/Components/Admission.antt =====
-- apis/components/v1alpha1/component_webhook.go: defaulting and validation together.
use wa8s.Prelude.{
  ◌≡◌, ◌≢◌, ◌⊎◌, inl, inr, String, true, false, Option, none, some, [], arith, eq_iff, starts_with,
  sym, if◌then◌else◌, ◌==◌, not, ◌&&◌, Bool-cases,
}
use mathlib.Core.Path.{subst}
use wa8s.Field.{FieldPath, new_path}
use wa8s.Apis.Meta.{Context, stash_resource, wa8s_namespace, api_version_for_kind}
use wa8s.Apis.Registries.Laws.{InScope}
use wa8s.Apis.Components.{
  ComponentReference, OciReference, Component, default_component_reference, default_oci_reference,
  default_component_spec, default_component, validate_create_component, default_present,
  validate_component_reference,
}
use wa8s.Apis.Components.Laws.{
  IfPresent, IsScoped, IsValidComponentReference, IsValidOciReference, IsValidComponentSpec,
  validate_component-nil_iff, validate_component_reference-nil_iff,
}

present_of {ℓ κ} :
    {A : Type ℓ} (P : A → Type κ) (d : A → A) (o : Option A) (a : A)
    → IfPresent P (default_present d o)
    → o ≡ some a
    → P (d a)
present_of P d none a h e = cc
present_of {A} P d (some b) a h e = let same : b ≡ a = cc in subst (λ (x : A). P (d x)) same h

-- What is in scope of a resource that is outside the namespace of wa8s lies in its namespace.
InScope-own :
    (ctx : Context) (namespace : String)
    → InScope ctx namespace
    → ctx.resource.namespace ≢ ""
    → ctx.resource.namespace ≢ wa8s_namespace ctx
    → namespace ≡ ctx.resource.namespace
InScope-own ctx namespace (_, inl e) h k = absurd (h e)
InScope-own ctx namespace (_, inr (inl e)) h k = sym e
InScope-own ctx namespace (_, inr (inr e)) h k = absurd (k e)

admitted_spec :
    (ctx : Context) (obj : Component)
    → validate_create_component ctx obj ≡ []
    → let ctx' = stash_resource ctx obj.metadata in
      IsValidComponentSpec ctx' (default_component_spec ctx' obj.spec)
unfolding validate_create_component default_component
admitted_spec ctx obj h =
    ((validate_component-nil_iff (stash_resource ctx obj.metadata) (new_path "")
        (default_component ctx obj)).0
      h).1

-- A component with a reference that is admitted in a namespace other than that of wa8s names, once
-- defaulted, its own namespace, unless the kind that it refers to begins with `Cluster`.
pub validate_create_component-isolates_ref :
    (ctx : Context) (obj : Component) (r : ComponentReference)
    → validate_create_component ctx obj ≡ []
    → obj.spec.ref ≡ some r
    → obj.metadata.namespace ≢ ""
    → obj.metadata.namespace ≢ wa8s_namespace ctx
    → let d = default_component_reference (stash_resource ctx obj.metadata) r in
      starts_with d.kind "Cluster" ≡ false → d.namespace ≡ obj.metadata.namespace
unfolding default_component_spec
validate_create_component-isolates_ref ctx obj r h e n w scoped =
    let ctx' = stash_resource ctx obj.metadata in
    let valid =
      present_of (IsValidComponentReference ctx') (default_component_reference ctx') obj.spec.ref r
        (admitted_spec ctx obj h).0.1 e in
    elim valid.0.1 [ inl cluster ↦ cc | inr (_, scope) ↦ InScope-own ctx' _ scope n w ]

-- A component with an OCI image that is admitted in a namespace other than that of wa8s has, once
-- defaulted, a service account of its own namespace.
pub validate_create_component-isolates_account :
    (ctx : Context) (obj : Component) (r : OciReference)
    → validate_create_component ctx obj ≡ []
    → obj.spec.oci ≡ some r
    → obj.metadata.namespace ≢ ""
    → obj.metadata.namespace ≢ wa8s_namespace ctx
    → (default_oci_reference (stash_resource ctx obj.metadata) r).service_account_ref.namespace
      ≡ obj.metadata.namespace
unfolding default_component_spec
validate_create_component-isolates_account ctx obj r h e n w =
    let ctx' = stash_resource ctx obj.metadata in
    let valid =
      present_of (IsValidOciReference ctx') (default_oci_reference ctx') obj.spec.oci r
        (admitted_spec ctx obj h).0.0.1 e in
    InScope-own ctx' _ valid.1.0 n w

default_kind : (k : String) → (if k == "" then "Component" else k) ≢ ""
default_kind k = ground (arith, eq_iff k "", eq_iff "Component" "")

default_text : (s t : String) → ((s ≢ "") ⊎ (t ≢ "")) → (if s == "" then t else s) ≢ ""
default_text s t h = ground (arith, eq_iff s "")

IsScoped-namespace :
    (ctx : Context) (kind namespace : String)
    → ctx.resource.namespace ≢ ""
    → ((namespace ≡ "") ⊎ (namespace ≡ ctx.resource.namespace))
    → IsScoped ctx kind (
        if namespace == "" && not (starts_with kind "Cluster")
        then ctx.resource.namespace
        else namespace)
IsScoped-namespace ctx kind namespace placed own = elim (Bool-cases (starts_with kind "Cluster")) [
  | inl cluster ↦ inl cluster
  | inr scoped ↦ inr (scoped, rw scoped (own_namespace own))
]
  where
    own_namespace :
        (namespace ≡ "") ⊎ (namespace ≡ ctx.resource.namespace)
        → InScope ctx (if namespace == "" && true then ctx.resource.namespace else namespace)
    own_namespace own = ground (arith, eq_iff namespace "")

-- A reference that leaves its namespace open or names that of its holder, and whose version is
-- given or whose kind the defaults know, validates once defaulted, whatever else it leaves out, if
-- the holder has a name and a namespace.
pub default_component_reference_valid :
    (ctx : Context) (r : ComponentReference)
    → ctx.resource.name ≢ ""
    → ctx.resource.namespace ≢ ""
    → (r.api_version ≢ "") ⊎ (api_version_for_kind (default_component_reference ctx r).kind ≢ "")
    → (r.namespace ≡ "") ⊎ (r.namespace ≡ ctx.resource.namespace)
    → (p : FieldPath) → validate_component_reference ctx p (default_component_reference ctx r) ≡ []
unfolding default_component_reference
default_component_reference_valid ctx r named placed known own p =
    let kind = if r.kind == "" then "Component" else r.kind in
    (validate_component_reference-nil_iff ctx p (default_component_reference ctx r)).1 (
      (
        (default_text r.api_version _ known, default_kind r.kind),
        IsScoped-namespace ctx kind r.namespace placed own,
      ),
      default_text r.name ctx.resource.name (inr named),
    )
