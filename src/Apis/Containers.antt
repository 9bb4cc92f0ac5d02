-- ===== src/Apis/Containers.antt =====
-- apis/containers/v1alpha1: duck_types.go, duck_webhook.go, the webhooks of the triggers, and that of
-- container images. A `Default` method returns nil on every path, so it is a function to the new
-- value; those of the host capabilities change nothing.
pub mod Args
pub mod Laws
use wa8s.Prelude.{String, Bool, ◌&&◌, List, [], ◌++◌, Option, none, if◌then◌else◌, ◌==◌}
use wa8s.Field.{FieldPath, ErrorList, new_path, child, require, validate_each}
use wa8s.Apis.Meta.{ObjectMeta, Context, stash_resource, validate_common_annotations}
use wa8s.Apis.Registries.{
  ServiceAccountReference, RepositoryReference, default_service_account_reference,
  validate_service_account_reference,
}
use wa8s.Apis.Registries.Image.{ImageReference, default_image_reference, validate_image_reference}
use wa8s.Apis.Components.{
  ComponentReference, GenericComponentSpec, default_component_reference,
  validate_component_reference, default_generic_component_spec, validate_generic_component_spec,
  validate_present,
}

pub record HostEnvVar : Type 0 where
  pub name : String
  pub value : Option String

pub record HostEnv : Type 0 where
  pub inherit : Bool
  pub vars : List HostEnvVar

pub record HostConfigVar : Type 0 where
  pub name : String
  pub value : String

pub record HostConfig : Type 0 where
  pub vars : List HostConfigVar

pub record HostNetwork : Type 0 where
  pub inherit : Bool
  pub ip_name_lookup : Bool

pub record HostCapabilities : Type 0 where
  pub env : Option HostEnv
  pub config : Option HostConfig
  pub network : Option HostNetwork

unfoldable pub validate_host_env_var : HostEnvVar → FieldPath → ErrorList
validate_host_env_var r p = require r.name (child p "name")

unfoldable pub validate_host_config_var : HostConfigVar → FieldPath → ErrorList
validate_host_config_var r p = require r.name (child p "name")

unfoldable pub validate_host_env : FieldPath → HostEnv → ErrorList
validate_host_env p r = validate_each validate_host_env_var (child p "vars") 0 r.vars

unfoldable pub validate_host_config : FieldPath → HostConfig → ErrorList
validate_host_config p r = validate_each validate_host_config_var (child p "vars") 0 r.vars

abbrev pub validate_host_network : FieldPath → HostNetwork → ErrorList
validate_host_network p r = []

unfoldable pub validate_host_capabilities : FieldPath → HostCapabilities → ErrorList
validate_host_capabilities p r =
    validate_present (validate_host_env (child p "env")) r.env
    ++ validate_present (validate_host_config (child p "config")) r.config
    ++ validate_present (validate_host_network (child p "network")) r.network

pub record GenericContainerSpec : Type 0 where
  pub generic : GenericComponentSpec
  pub ref : ComponentReference
  pub service_account_ref : ServiceAccountReference
  pub host_capabilities : HostCapabilities

-- `if (r.RepositoryRef == registriesv1alpha1.RepositoryReference{})`
abbrev pub external_repository : RepositoryReference → RepositoryReference
external_repository r =
    if r.kind == "" && r.name == ""
    then record { kind = "ClusterRepository"; name = "external" }
    else r

unfoldable pub default_generic_container_spec :
    Context → GenericContainerSpec → GenericContainerSpec
unfolding default_generic_component_spec default_component_reference
    default_service_account_reference
default_generic_container_spec ctx r = record r {
  generic =
      default_generic_component_spec
        (record { repository_ref = external_repository r.generic.repository_ref });
  ref = default_component_reference ctx r.ref;
  service_account_ref = default_service_account_reference ctx r.service_account_ref;
}

unfoldable pub validate_generic_container_spec :
    Context → FieldPath → GenericContainerSpec → ErrorList
validate_generic_container_spec ctx p r =
    validate_generic_component_spec p r.generic
    ++ validate_component_reference ctx (child p "ref") r.ref
    ++ validate_service_account_reference ctx (child p "serviceAccountRef") r.service_account_ref
    ++ validate_host_capabilities (child p "hostCapabilities") r.host_capabilities

-- `HttpTrigger` and `WrpcTrigger`: the two types and their methods differ in their names only.
pub record Trigger : Type 0 where
  pub metadata : ObjectMeta
  pub spec : GenericContainerSpec

unfoldable pub default_trigger : Context → Trigger → Trigger
unfolding default_generic_container_spec
default_trigger ctx r = record r {
  spec = default_generic_container_spec (stash_resource ctx r.metadata) r.spec;
}

unfoldable pub validate_trigger : Context → FieldPath → Trigger → ErrorList
validate_trigger ctx p r =
    validate_common_annotations p r.metadata
    ++ validate_generic_container_spec ctx (child p "spec") r.spec

-- `ValidateCreate`, and `ValidateUpdate` of the new object: the errors handed to `ToAggregate`.
unfoldable pub validate_create_trigger : Context → Trigger → ErrorList
validate_create_trigger ctx obj =
    let obj' = default_trigger ctx obj in
    validate_trigger (stash_resource ctx obj'.metadata) (new_path "") obj'

pub record CronTriggerSpec : Type 0 where
  pub container : GenericContainerSpec
  pub schedule : String
  pub time_zone : Option String
  pub restart_policy : String

unfoldable pub default_cron_trigger_spec : Context → CronTriggerSpec → CronTriggerSpec
unfolding default_generic_container_spec
default_cron_trigger_spec ctx r = record r {
  container = default_generic_container_spec ctx r.container;
}

unfoldable pub validate_cron_trigger_spec : Context → FieldPath → CronTriggerSpec → ErrorList
validate_cron_trigger_spec ctx p r =
    validate_generic_container_spec ctx p r.container
    ++ require r.schedule (child p "schedule")
    ++ require r.restart_policy (child p "restartPolicy")

pub record CronTrigger : Type 0 where
  pub metadata : ObjectMeta
  pub spec : CronTriggerSpec

unfoldable pub default_cron_trigger : Context → CronTrigger → CronTrigger
unfolding default_cron_trigger_spec
default_cron_trigger ctx r = record r {
  spec = default_cron_trigger_spec (stash_resource ctx r.metadata) r.spec;
}

unfoldable pub validate_cron_trigger : Context → FieldPath → CronTrigger → ErrorList
validate_cron_trigger ctx p r =
    validate_common_annotations p r.metadata
    ++ validate_cron_trigger_spec ctx (child p "spec") r.spec

unfoldable pub validate_create_cron_trigger : Context → CronTrigger → ErrorList
validate_create_cron_trigger ctx obj =
    let obj' = default_cron_trigger ctx obj in
    validate_cron_trigger (stash_resource ctx obj'.metadata) (new_path "") obj'

pub record ComponentContainerImageSpec : Type 0 where
  pub generic : GenericComponentSpec
  pub ref : ComponentReference
  pub image_ref : ImageReference

-- `if r.ImageRef == (registriesv1alpha1.ImageReference{})`
abbrev pub default_base_image : ImageReference → ImageReference
default_base_image r =
    if r.kind == "" && r.namespace == "" && r.name == ""
    then record { kind = "ClusterImage"; namespace = ""; name = "wasmtime" }
    else r

unfoldable pub default_container_image_spec :
    Context → ComponentContainerImageSpec → ComponentContainerImageSpec
unfolding default_generic_component_spec default_component_reference default_image_reference
default_container_image_spec ctx r = record {
  generic = default_generic_component_spec r.generic;
  ref = default_component_reference ctx r.ref;
  image_ref = default_image_reference ctx (default_base_image r.image_ref);
}

unfoldable pub validate_container_image_spec :
    Context → FieldPath → ComponentContainerImageSpec → ErrorList
validate_container_image_spec ctx p r =
    validate_generic_component_spec p r.generic
    ++ validate_component_reference ctx (child p "ref") r.ref
    ++ validate_image_reference ctx (child p "imageRef") r.image_ref

pub record ComponentContainerImage : Type 0 where
  pub metadata : ObjectMeta
  pub spec : ComponentContainerImageSpec

unfoldable pub default_container_image : Context → ComponentContainerImage → ComponentContainerImage
unfolding default_container_image_spec
default_container_image ctx r = record r {
  spec = default_container_image_spec (stash_resource ctx r.metadata) r.spec;
}

unfoldable pub validate_container_image : Context → FieldPath → ComponentContainerImage → ErrorList
validate_container_image ctx p r =
    validate_common_annotations p r.metadata
    ++ validate_container_image_spec ctx (child p "spec") r.spec

unfoldable pub validate_create_container_image : Context → ComponentContainerImage → ErrorList
validate_create_container_image ctx obj =
    let obj' = default_container_image ctx obj in
    validate_container_image (stash_resource ctx obj'.metadata) (new_path "") obj'
