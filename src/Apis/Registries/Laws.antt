-- ===== src/Apis/Registries/Laws.antt =====
-- What defaulting and validating the references of the registries API establish.
use wa8s.Prelude.{◌≡◌, ◌≢◌, ◌&&◌, ◌↔◌, ◌⊎◌, String, [], arith, eq_iff, if◌then◌else◌, ◌==◌}
use wa8s.Field.{FieldPath, child, nil_append, require-nil_iff}
use wa8s.Apis.Meta.{Context, wa8s_namespace}
use wa8s.Apis.Registries.{
  ServiceAccountReference, RepositoryReference, check_namespace, default_service_account_reference,
  validate_service_account_reference, default_repository_reference, validate_repository_reference,
}

-- What a repository reference needs.
abbrev pub IsValidRepositoryReference : RepositoryReference → Type 0
IsValidRepositoryReference r =
    ((r.kind ≡ "Repository") ⊎ (r.kind ≡ "ClusterRepository")) × (r.name ≢ "")

pub validate_repository_reference-nil_iff :
    (p : FieldPath) (r : RepositoryReference)
    → (validate_repository_reference p r ≡ []) ↔ IsValidRepositoryReference r
unfolding validate_repository_reference
validate_repository_reference-nil_iff p r = ground (
  arith,
  eq_iff r.kind "",
  eq_iff r.kind "Repository",
  eq_iff r.kind "ClusterRepository",
  eq_iff r.name "",
  eq_iff "Repository" "",
  eq_iff "ClusterRepository" "",
)

normal_kind :
    (k : String)
    → let out = if k == "ClusterRepository" then k else "Repository" in
      (out ≡ "Repository") ⊎ (out ≡ "ClusterRepository")
normal_kind k = ground (arith, eq_iff k "ClusterRepository")

normal_name : (n : String) → (if n == "" then "default" else n) ≢ ""
normal_name n = ground (arith, eq_iff n "", eq_iff "default" "")

pub default_repository_reference_valid :
    (r : RepositoryReference) → IsValidRepositoryReference (default_repository_reference r)
unfolding default_repository_reference
default_repository_reference_valid r =
    let empty = r.kind == "" && r.name == "" in
    (
      normal_kind (if empty then "ClusterRepository" else r.kind),
      normal_name (if empty then "default" else r.name),
    )

-- A defaulted repository reference always validates.
pub validate-default_repository_reference :
    (p : FieldPath) (r : RepositoryReference)
    → validate_repository_reference p (default_repository_reference r) ≡ []
validate-default_repository_reference p r =
    (validate_repository_reference-nil_iff p (default_repository_reference r)).1
      (default_repository_reference_valid r)

-- Defaulting leaves a valid reference alone.
pub default_repository_reference_of_valid :
    (r : RepositoryReference) → IsValidRepositoryReference r → default_repository_reference r ≡ r
unfolding default_repository_reference
default_repository_reference_of_valid r (k, n) =
    ground (arith, eq_iff r.kind "", eq_iff r.name "", eq_iff r.kind "ClusterRepository")

-- So a second defaulting changes nothing.
pub default_repository_reference_idem :
    (r : RepositoryReference)
    → default_repository_reference (default_repository_reference r) ≡ default_repository_reference r
default_repository_reference_idem r =
    default_repository_reference_of_valid _ (default_repository_reference_valid r)

-- The namespace a reference may name.
abbrev pub InScope : Context → String → Type 0
InScope ctx namespace =
    (namespace ≢ "")
    × ((ctx.resource.namespace ≡ "")
        ⊎ (ctx.resource.namespace ≡ namespace)
        ⊎ (ctx.resource.namespace ≡ wa8s_namespace ctx))

pub check_namespace-nil_iff :
    (ctx : Context) (p : FieldPath) (namespace message : String)
    → (check_namespace ctx p namespace message ≡ []) ↔ InScope ctx namespace
check_namespace-nil_iff ctx p namespace message = ground (
  arith,
  eq_iff namespace "",
  eq_iff ctx.resource.namespace "",
  eq_iff ctx.resource.namespace namespace,
  eq_iff ctx.resource.namespace (wa8s_namespace ctx),
)

pub validate_service_account_reference-nil_iff :
    (ctx : Context) (p : FieldPath) (r : ServiceAccountReference)
    → (validate_service_account_reference ctx p r ≡ []) ↔ (InScope ctx r.namespace × (r.name ≢ ""))
unfolding validate_service_account_reference
validate_service_account_reference-nil_iff ctx p r =
    nil_append (check_namespace-nil_iff ctx p r.namespace _)
      (require-nil_iff r.name (child p "name"))

-- Defaulting fills in what is missing and keeps what is given; only the namespace can stay empty.
pub default_service_account_reference_valid :
    (ctx : Context) (r : ServiceAccountReference)
    → ((default_service_account_reference ctx r).name ≢ "")
      × (ctx.resource.namespace ≢ "" → (default_service_account_reference ctx r).namespace ≢ "")
unfolding default_service_account_reference
default_service_account_reference_valid ctx r =
    (normal_name r.name, λ h. ground (arith, eq_iff r.namespace ""))
