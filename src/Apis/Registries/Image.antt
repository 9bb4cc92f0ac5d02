-- ===== src/Apis/Registries/Image.antt =====
-- apis/registries/v1alpha1/image_webhook.go: images, and the reference that triggers use.
use wa8s.Prelude.{String, not, ◌&&◌, [], ◌++◌, some, if◌then◌else◌, ◌==◌, starts_with}
use wa8s.Field.{FieldPath, ErrorList, new_path, child, when_error, require, invalid}
use wa8s.Apis.Meta.{
  ObjectMeta, Context, wa8s_namespace, stash_resource, validate_common_annotations,
}
use wa8s.Apis.Registries.{
  ServiceAccountReference, RepositoryReference, check_namespace, default_service_account_reference,
  validate_service_account_reference, default_repository_reference, validate_repository_reference,
}

pub record ImageReference : Type 0 where
  pub kind : String
  pub namespace : String
  pub name : String

unfoldable pub default_image_reference : Context → ImageReference → ImageReference
default_image_reference ctx r =
    let kind = if r.kind == "" then "Image" else r.kind in
    record {
      kind = kind;
      namespace =
          if r.namespace == "" && not (starts_with kind "Cluster")
          then ctx.resource.namespace
          else r.namespace;
      name = if r.name == "" then ctx.resource.name else r.name;
    }

abbrev check_image_kind : FieldPath → String → ErrorList
check_image_kind p kind =
    if kind == ""
    then require kind (child p "kind")
    else when_error (not (kind == "Image") && not (kind == "ClusterImage"))
        (invalid (child p "kind") (some kind) "must be one of Image or ClusterImage")

unfoldable pub validate_image_reference : Context → FieldPath → ImageReference → ErrorList
validate_image_reference ctx p r =
    check_image_kind p r.kind
    ++ (if starts_with r.kind "Cluster"
        then []
        else check_namespace ctx p r.namespace "cross namespace images are not allowed")
    ++ require r.name (child p "name")

pub record ImageSpec : Type 0 where
  pub image : String
  pub repository_ref : RepositoryReference
  pub service_account_ref : ServiceAccountReference

unfoldable pub default_image_spec : Context → ImageSpec → ImageSpec
unfolding default_repository_reference default_service_account_reference
default_image_spec ctx r = record r {
  repository_ref = default_repository_reference r.repository_ref;
  service_account_ref = default_service_account_reference ctx r.service_account_ref;
}

-- `.spec.image` itself is not checked.
unfoldable pub validate_image_spec : Context → FieldPath → ImageSpec → ErrorList
unfolding validate_repository_reference validate_service_account_reference
validate_image_spec ctx p r =
    validate_repository_reference (child p "repositoryRef") r.repository_ref
    ++ validate_service_account_reference ctx (child p "serviceAccountRef") r.service_account_ref

pub record Image : Type 0 where
  pub metadata : ObjectMeta
  pub spec : ImageSpec

unfoldable pub default_image : Context → Image → Image
unfolding default_image_spec
default_image ctx r = record r { spec = default_image_spec (stash_resource ctx r.metadata) r.spec }

unfoldable pub default_cluster_image : Context → Image → Image
unfolding default_image_spec
default_cluster_image ctx r =
    let ref = r.spec.service_account_ref in
    let ref' = record ref {
      namespace = if ref.namespace == "" then wa8s_namespace ctx else ref.namespace;
    } in
    let spec = record r.spec { service_account_ref = ref' } in
    record r { spec = default_image_spec (stash_resource ctx r.metadata) spec }

unfoldable pub validate_image : Context → FieldPath → Image → ErrorList
unfolding validate_common_annotations validate_image_spec
validate_image ctx p r =
    validate_common_annotations p r.metadata ++ validate_image_spec ctx (child p "spec") r.spec

unfoldable pub validate_create_image : Context → Image → ErrorList
unfolding default_image validate_image
validate_create_image ctx obj =
    let obj' = default_image ctx obj in
    validate_image (stash_resource ctx obj'.metadata) (new_path "") obj'

unfoldable pub validate_create_cluster_image : Context → Image → ErrorList
unfolding default_cluster_image validate_image
validate_create_cluster_image ctx obj =
    let obj' = default_cluster_image ctx obj in
    validate_image (stash_resource ctx obj'.metadata) (new_path "") obj'
