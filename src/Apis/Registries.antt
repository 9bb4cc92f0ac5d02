-- ===== src/Apis/Registries.antt =====
-- apis/registries/v1alpha1: repository_webhook.go. A `Default` method changes
-- its receiver and returns nil on every path, so it is a function to the new value.
pub mod Image
pub mod Laws
use wa8s.Prelude.{String, Bool, not, ◌&&◌, [], ◌∷◌, ◌++◌, some, if◌then◌else◌, ◌==◌}
use wa8s.Field.{FieldPath, ErrorList, new_path, child, when_error, require, invalid}
use wa8s.Apis.Meta.{
  ObjectMeta, Context, wa8s_namespace, stash_resource, validate_common_annotations,
}

pub record ServiceAccountReference : Type 0 where
  pub namespace : String
  pub name : String

pub record RepositoryReference : Type 0 where
  pub kind : String
  pub name : String

-- The namespace rule that service accounts, components and images share: the reference stays in
-- the namespace of a namespaced resource, unless that resource is in the namespace of wa8s.
abbrev pub crosses : Context → String → Bool
crosses ctx namespace =
    let ns = ctx.resource.namespace in
    not (ns == "") && not (ns == namespace) && not (ns == wa8s_namespace ctx)

unfoldable pub default_service_account_reference :
    Context → ServiceAccountReference → ServiceAccountReference
default_service_account_reference ctx r = record {
  namespace = if r.namespace == "" then ctx.resource.namespace else r.namespace;
  name = if r.name == "" then "default" else r.name;
}

-- The rule on a namespace that a reference names: it is given, and it is not a foreign one.
abbrev pub check_namespace : Context → FieldPath → String → String → ErrorList
check_namespace ctx p namespace message =
    if namespace == ""
    then require namespace (child p "namespace")
    else when_error (crosses ctx namespace) (invalid (child p "namespace") (some namespace) message)

unfoldable pub validate_service_account_reference :
    Context → FieldPath → ServiceAccountReference → ErrorList
validate_service_account_reference ctx p r =
    check_namespace ctx p r.namespace "cross namespace service accounts are not allowed"
    ++ require r.name (child p "name")

-- `*r == RepositoryReference{}` is the first test; the two others see its assignments.
unfoldable pub default_repository_reference : RepositoryReference → RepositoryReference
default_repository_reference r =
    let empty = r.kind == "" && r.name == "" in
    let kind = if empty then "ClusterRepository" else r.kind in
    let name = if empty then "default" else r.name in
    record {
      kind = if kind == "ClusterRepository" then kind else "Repository";
      name = if name == "" then "default" else name;
    }

unfoldable pub validate_repository_reference : FieldPath → RepositoryReference → ErrorList
validate_repository_reference p r =
    require r.kind (child p "kind")
    ++ when_error (not (r.kind == "Repository") && not (r.kind == "ClusterRepository")) (
        invalid (child p "kind") (some r.kind) "allowed values are Repository or ClusterRepository")
    ++ require r.name (child p "name")

pub record RepositorySpec : Type 0 where
  pub template : String
  pub service_account_ref : ServiceAccountReference

unfoldable pub default_repository_spec : Context → RepositorySpec → RepositorySpec
unfolding default_service_account_reference
default_repository_spec ctx r = record r {
  service_account_ref = default_service_account_reference ctx r.service_account_ref;
}

unfoldable pub validate_repository_spec : Context → FieldPath → RepositorySpec → ErrorList
unfolding validate_service_account_reference
validate_repository_spec ctx p r =
    require r.template (child p "template")
    ++ validate_service_account_reference ctx (child p "serviceAccountRef") r.service_account_ref

pub record Repository : Type 0 where
  pub metadata : ObjectMeta
  pub spec : RepositorySpec

unfoldable pub default_repository : Context → Repository → Repository
unfolding default_repository_spec
default_repository ctx r = record r {
  spec = default_repository_spec (stash_resource ctx r.metadata) r.spec;
}

-- A service account without a namespace is taken from the namespace of wa8s.
abbrev in_wa8s_namespace : Context → ServiceAccountReference → ServiceAccountReference
in_wa8s_namespace ctx r = record r {
  namespace = if r.namespace == "" then wa8s_namespace ctx else r.namespace;
}

unfoldable pub default_cluster_repository : Context → Repository → Repository
unfolding default_repository_spec
default_cluster_repository ctx r =
    let ref = in_wa8s_namespace ctx r.spec.service_account_ref in
    let spec = record r.spec { service_account_ref = ref } in
    record r { spec = default_repository_spec (stash_resource ctx r.metadata) spec }

unfoldable pub validate_repository : Context → FieldPath → Repository → ErrorList
unfolding validate_repository_spec validate_common_annotations
validate_repository ctx p r =
    validate_common_annotations p r.metadata ++ validate_repository_spec ctx (child p "spec") r.spec

-- `ValidateCreate`, and `ValidateUpdate` of the new object: the errors handed to `ToAggregate`.
unfoldable pub validate_create_repository : Context → Repository → ErrorList
unfolding default_repository validate_repository
validate_create_repository ctx obj =
    let obj' = default_repository ctx obj in
    validate_repository (stash_resource ctx obj'.metadata) (new_path "") obj'

unfoldable pub validate_create_cluster_repository : Context → Repository → ErrorList
unfolding default_cluster_repository validate_repository
validate_create_cluster_repository ctx obj =
    let obj' = default_cluster_repository ctx obj in
    validate_repository (stash_resource ctx obj'.metadata) (new_path "") obj'
