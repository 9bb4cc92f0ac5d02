-- ===== src/Apis/Meta.antt =====
-- Object metadata, the context of a request, and the common annotations: apis/annotations.go,
-- internal/defaults/*.go and validation/stash.go.
-- A nil map and an empty one read alike, so a map is an association list with distinct keys.
use wa8s.Prelude.{
  ◌≡◌, ◌⊎◌, ◌↔◌, String, not, ◌&&◌, List, [], ◌∷◌, Option, none, some, if◌then◌else◌, ◌==◌, arith,
  eq_iff,
}
use wa8s.Field.{FieldPath, ErrorList, child, when_error, invalid}

unfoldable pub lookup {ℓ} : {V : Type ℓ} → String → List (String × V) → Option V
lookup key [] = none
lookup key ((k, v) ∷ entries) = if k == key then some v else lookup key entries

pub record ObjectMeta : Type 0 where
  pub namespace : String
  pub name : String
  pub annotations : List (String × String)

-- What `ctx` holds where a spec is defaulted or validated: the resource that `StashResource` put
-- there, which each entry point does first, and the value of `os.Getenv("WA8S_NAMESPACE")`.
pub record Context : Type 0 where
  pub resource : ObjectMeta
  pub env_namespace : String

-- `defaults.Namespace()`
abbrev pub wa8s_namespace : Context → String
wa8s_namespace ctx = if ctx.env_namespace == "" then "wa8s-system" else ctx.env_namespace

-- `validation.StashResource(ctx, obj)`
abbrev pub stash_resource : Context → ObjectMeta → Context
stash_resource ctx obj = record ctx { resource = obj }

-- The groups of `defaults.APIVersionForKind`.
abbrev pub components_v1alpha1 : String
components_v1alpha1 = "wa8s.reconciler.io/v1alpha1"

abbrev pub containers_v1alpha1 : String
containers_v1alpha1 = "containers.wa8s.reconciler.io/v1alpha1"

abbrev pub knative_v1alpha1 : String
knative_v1alpha1 = "knative.wa8s.reconciler.io/v1alpha1"

abbrev pub registries_v1alpha1 : String
registries_v1alpha1 = "registries.wa8s.reconciler.io/v1alpha1"

abbrev pub services_v1alpha1 : String
services_v1alpha1 = "services.wa8s.reconciler.io/v1alpha1"

-- The cases of the `switch`, in its order.
abbrev pub api_versions : List (String × String)
api_versions =
    ("Component", components_v1alpha1)
    ∷ ("ClusterComponent", components_v1alpha1)
    ∷ ("Composition", components_v1alpha1)
    ∷ ("ConfigStore", components_v1alpha1)
    ∷ ("ComponentContainerImage", containers_v1alpha1)
    ∷ ("CronTrigger", containers_v1alpha1)
    ∷ ("HttpTrigger", containers_v1alpha1)
    ∷ ("WrpcTrigger", containers_v1alpha1)
    ∷ ("ServiceTrigger", knative_v1alpha1)
    ∷ ("Image", registries_v1alpha1)
    ∷ ("ClusterImage", registries_v1alpha1)
    ∷ ("Repository", registries_v1alpha1)
    ∷ ("ClusterRepository", registries_v1alpha1)
    ∷ ("ServiceClient", services_v1alpha1)
    ∷ ("ServiceInstance", services_v1alpha1)
    ∷ ("ServiceLifecycle", services_v1alpha1)
    ∷ ("ClusterServiceLifecycle", services_v1alpha1)
    ∷ []

abbrev pub or_empty : Option String → String
or_empty none = ""
or_empty (some s) = s

unfoldable pub api_version_for_kind : String → String
unfolding lookup
api_version_for_kind kind = or_empty (lookup kind api_versions)

abbrev pub create_child_annotation : String
create_child_annotation = "wa8s.reconciler.io/create-child-component"

abbrev pub create_child_true : String
create_child_true = "true"

abbrev pub create_child_false : String
create_child_false = "false"

abbrev pub create_child_auto : String
create_child_auto = "auto"

-- The text of the message, whose last word is the annotation's name where `auto` is meant.
abbrev create_child_message : String
create_child_message = "must be one of: true, false, wa8s.reconciler.io/create-child-component"

abbrev check_create_child : FieldPath → Option String → ErrorList
check_create_child p none = []
check_create_child p (some v) =
    when_error
      (not (v == create_child_true)
        && not (v == create_child_false)
        && not (v == create_child_auto))
      (invalid (child (child (child p "metadata") "annotations") create_child_annotation) (some v)
        create_child_message)

-- `ValidateCommonAnnotations`
unfoldable pub validate_common_annotations : FieldPath → ObjectMeta → ErrorList
validate_common_annotations p obj =
    check_create_child p (lookup create_child_annotation obj.annotations)

-- The annotation is missing or has one of its three values.
abbrev pub HasValidAnnotations : ObjectMeta → Type 0
HasValidAnnotations obj =
    (lookup create_child_annotation obj.annotations ≡ none)
    ⊎ (lookup create_child_annotation obj.annotations ≡ some "true")
    ⊎ (lookup create_child_annotation obj.annotations ≡ some "false")
    ⊎ (lookup create_child_annotation obj.annotations ≡ some "auto")

check_create_child-nil_iff :
    (p : FieldPath) (o : Option String)
    → (check_create_child p o ≡ [])
      ↔ ((o ≡ none) ⊎ (o ≡ some "true") ⊎ (o ≡ some "false") ⊎ (o ≡ some "auto"))
check_create_child-nil_iff p none = ground arith
check_create_child-nil_iff p (some v) =
    ground (arith, eq_iff v "true", eq_iff v "false", eq_iff v "auto")

-- The annotation passes exactly when it is missing or one of `true`, `false` and `auto`.
pub validate_common_annotations-nil_iff :
    (p : FieldPath) (obj : ObjectMeta)
    → (validate_common_annotations p obj ≡ []) ↔ HasValidAnnotations obj
unfolding validate_common_annotations
validate_common_annotations-nil_iff p obj =
    check_create_child-nil_iff p (lookup create_child_annotation obj.annotations)
