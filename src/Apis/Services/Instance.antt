-- ===== src/Apis/Services/Instance.antt =====
-- integrations/services/apis/services/v1alpha1: serviceinstance_webhook.go and the references of
-- servicelifecycle_webhook.go.
use wa8s.Prelude.{
  ◌≡◌, ◌≢◌, ◌↔◌, ◌⊎◌, String, Bool, not, ◌&&◌, List, [], ◌++◌, some, if◌then◌else◌, ◌==◌, arith,
  eq_iff, All,
}
use wa8s.Field.{
  FieldPath, ErrorList, new_path, child, require, when_error, invalid, validate_each,
  validate_each-nil_iff, nil_append, require-nil_iff,
}
use wa8s.Apis.Meta.{ObjectMeta, Context, stash_resource, validate_common_annotations}
use wa8s.Apis.Services.{Answer, refused, checked}

pub record ServiceLifecycleReference : Type 0 where
  pub kind : String
  pub namespace : String
  pub name : String

unfoldable pub default_service_lifecycle_reference :
    Context → ServiceLifecycleReference → ServiceLifecycleReference
default_service_lifecycle_reference ctx r =
    let kind = if r.kind == "" then "ClusterServiceLifecycle" else r.kind in
    record r {
      kind = kind;
      namespace =
          if r.namespace == "" && not (kind == "ClusterServiceLifecycle")
          then ctx.resource.namespace
          else r.namespace;
    }

-- The namespace is not checked.
unfoldable pub validate_service_lifecycle_reference :
    FieldPath → ServiceLifecycleReference → ErrorList
validate_service_lifecycle_reference p r =
    require r.kind (child p "kind")
    ++ when_error (not (r.kind == "ServiceLifecycle") && not (r.kind == "ClusterServiceLifecycle"))
        (invalid (child p "kind") (some r.kind)
          "allowed values are ServiceLifecycle or ClusterServiceLifecycle")
    ++ require r.name (child p "name")

pub record ServiceInstanceRequest : Type 0 where
  pub key : String
  pub value : String

unfoldable pub validate_service_instance_request : ServiceInstanceRequest → FieldPath → ErrorList
validate_service_instance_request r p =
    require r.key (child p "key") ++ require r.value (child p "value")

pub record ServiceInstanceSpec : Type 0 where
  pub ref : ServiceLifecycleReference
  pub type : String
  pub tier : String
  pub requests : List ServiceInstanceRequest

-- The defaults of the requests change nothing.
unfoldable pub default_service_instance_spec : Context → ServiceInstanceSpec → ServiceInstanceSpec
unfolding default_service_lifecycle_reference
default_service_instance_spec ctx r = record r {
  ref = default_service_lifecycle_reference ctx r.ref;
}

unfoldable pub validate_service_instance_spec : FieldPath → ServiceInstanceSpec → ErrorList
validate_service_instance_spec p r =
    validate_service_lifecycle_reference (child p "ref") r.ref
    ++ require r.type (child p "type")
    ++ validate_each validate_service_instance_request (child p "requests") 0 r.requests

pub record ServiceInstance : Type 0 where
  pub metadata : ObjectMeta
  pub spec : ServiceInstanceSpec
  pub service_instance_id : String

unfoldable pub default_service_instance : Context → ServiceInstance → ServiceInstance
unfolding default_service_instance_spec
default_service_instance ctx r = record r {
  spec = default_service_instance_spec (stash_resource ctx r.metadata) r.spec;
}

unfoldable pub validate_service_instance : FieldPath → ServiceInstance → ErrorList
validate_service_instance p r =
    validate_common_annotations p r.metadata
    ++ validate_service_instance_spec (child p "spec") r.spec

unfoldable pub validate_create_service_instance : Context → ServiceInstance → ErrorList
validate_create_service_instance ctx obj =
    validate_service_instance (new_path "") (default_service_instance ctx obj)

-- `ValidateUpdate`: both objects are defaulted; `equal` stands for `cmp.Equal`.
unfoldable pub validate_update_service_instance :
    (ServiceInstanceSpec → ServiceInstanceSpec → Bool)
    → Context
    → ServiceInstance
    → ServiceInstance
    → Answer
validate_update_service_instance equal ctx old new =
    let old' = default_service_instance ctx old in
    let new' = default_service_instance ctx new in
    if not (equal new'.spec old'.spec)
    then refused ".spec updates are disallowed"
    else if not (old'.service_instance_id == "")
        && not (new'.service_instance_id == old'.service_instance_id)
    then refused ".status.serviceInstanceId is immutable once set"
    else checked (validate_service_instance (new_path "") new')

abbrev pub IsValidLifecycleReference : ServiceLifecycleReference → Type 0
IsValidLifecycleReference r =
    ((r.kind ≡ "ServiceLifecycle") ⊎ (r.kind ≡ "ClusterServiceLifecycle")) × (r.name ≢ "")

pub validate_service_lifecycle_reference-nil_iff :
    (p : FieldPath) (r : ServiceLifecycleReference)
    → (validate_service_lifecycle_reference p r ≡ []) ↔ IsValidLifecycleReference r
unfolding validate_service_lifecycle_reference
validate_service_lifecycle_reference-nil_iff p r = ground (
  arith,
  eq_iff r.kind "",
  eq_iff r.kind "ServiceLifecycle",
  eq_iff r.kind "ClusterServiceLifecycle",
  eq_iff r.name "",
  eq_iff "ServiceLifecycle" "",
  eq_iff "ClusterServiceLifecycle" "",
)

abbrev pub IsValidInstanceSpec : ServiceInstanceSpec → Type 0
IsValidInstanceSpec r =
    (IsValidLifecycleReference r.ref × (r.type ≢ ""))
    × All (λ q. (q.key ≢ "") × (q.value ≢ "")) r.requests

request-nil_iff :
    (r : ServiceInstanceRequest) (p : FieldPath)
    → (validate_service_instance_request r p ≡ []) ↔ ((r.key ≢ "") × (r.value ≢ ""))
unfolding validate_service_instance_request
request-nil_iff r p =
    nil_append (require-nil_iff r.key (child p "key")) (require-nil_iff r.value (child p "value"))

-- An instance's spec passes validation exactly when it names a lifecycle of one of the two kinds and
-- a type, and each of its requests has a key and a value.
pub validate_service_instance_spec-nil_iff :
    (p : FieldPath) (r : ServiceInstanceSpec)
    → (validate_service_instance_spec p r ≡ []) ↔ IsValidInstanceSpec r
unfolding validate_service_instance_spec
validate_service_instance_spec-nil_iff p r =
    nil_append
      (nil_append (validate_service_lifecycle_reference-nil_iff (child p "ref") r.ref)
        (require-nil_iff r.type (child p "type")))
      (validate_each-nil_iff (λ q. (q.key ≢ "") × (q.value ≢ "")) validate_service_instance_request
        (child p "requests") 0 r.requests request-nil_iff)
