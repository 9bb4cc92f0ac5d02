-- ===== src/Apis/Containers/Laws.antt =====
-- What the validation of triggers and container images accepts, exactly.
use wa8s.Prelude.{◌≡◌, ◌≢◌, ◌↔◌, ◌⊎◌, refl, [], All}
use wa8s.Field.{FieldPath, child, nil_append, require-nil_iff, validate_each-nil_iff}
use wa8s.Apis.Meta.{Context, HasValidAnnotations, validate_common_annotations-nil_iff}
use wa8s.Apis.Registries.Laws.{
  InScope, IsValidRepositoryReference, validate_service_account_reference-nil_iff,
}
use wa8s.Apis.Registries.Image.{ImageReference, validate_image_reference}
use wa8s.Apis.Components.Laws.{
  IfPresent, IsScoped, IsValidComponentReference, validate_present-nil_iff,
  validate_component_reference-nil_iff, validate_generic_component_spec-nil_iff,
}
use wa8s.Apis.Containers.{
  HostEnvVar, HostEnv, HostConfigVar, HostConfig, HostNetwork, HostCapabilities,
  GenericContainerSpec, Trigger, CronTrigger, CronTriggerSpec, ComponentContainerImageSpec,
  validate_host_env_var, validate_host_config_var, validate_host_env, validate_host_config,
  validate_host_capabilities, validate_generic_container_spec, validate_trigger,
  validate_cron_trigger_spec, validate_cron_trigger, validate_container_image_spec,
}

abbrev pub AreNamed : HostCapabilities → Type 0
AreNamed r =
    (IfPresent (λ (e : HostEnv). All (λ (v : HostEnvVar). v.name ≢ "") e.vars) r.env
      × IfPresent (λ (c : HostConfig). All (λ (v : HostConfigVar). v.name ≢ "") c.vars) r.config)
    × IfPresent (λ (n : HostNetwork). Unit {0}) r.network

validate_host_env-nil_iff :
    (p : FieldPath) (e : HostEnv)
    → (validate_host_env p e ≡ []) ↔ All (λ (v : HostEnvVar). v.name ≢ "") e.vars
unfolding validate_host_env validate_host_env_var
validate_host_env-nil_iff p e =
    validate_each-nil_iff (λ (v : HostEnvVar). v.name ≢ "") _ (child p "vars") 0 e.vars
      (λ v q. require-nil_iff v.name (child q "name"))

validate_host_config-nil_iff :
    (p : FieldPath) (c : HostConfig)
    → (validate_host_config p c ≡ []) ↔ All (λ (v : HostConfigVar). v.name ≢ "") c.vars
unfolding validate_host_config validate_host_config_var
validate_host_config-nil_iff p c =
    validate_each-nil_iff (λ (v : HostConfigVar). v.name ≢ "") _ (child p "vars") 0 c.vars
      (λ v q. require-nil_iff v.name (child q "name"))

pub validate_host_capabilities-nil_iff :
    (p : FieldPath) (r : HostCapabilities) → (validate_host_capabilities p r ≡ []) ↔ AreNamed r
unfolding validate_host_capabilities
validate_host_capabilities-nil_iff p r =
    nil_append
      (nil_append
        (validate_present-nil_iff (λ (e : HostEnv). All (λ (v : HostEnvVar). v.name ≢ "") e.vars) _
          r.env (validate_host_env-nil_iff (child p "env")))
        (validate_present-nil_iff
          (λ (c : HostConfig). All (λ (v : HostConfigVar). v.name ≢ "") c.vars) _ r.config
          (validate_host_config-nil_iff (child p "config"))))
      (validate_present-nil_iff (λ (n : HostNetwork). Unit {0}) _ r.network
        (λ n. (λ _. tt, λ _. refl)))

abbrev pub IsValidContainerSpec : Context → GenericContainerSpec → Type 0
IsValidContainerSpec ctx r =
    ((IsValidRepositoryReference r.generic.repository_ref × IsValidComponentReference ctx r.ref)
      × (InScope ctx r.service_account_ref.namespace × (r.service_account_ref.name ≢ "")))
    × AreNamed r.host_capabilities

pub validate_generic_container_spec-nil_iff :
    (ctx : Context) (p : FieldPath) (r : GenericContainerSpec)
    → (validate_generic_container_spec ctx p r ≡ []) ↔ IsValidContainerSpec ctx r
unfolding validate_generic_container_spec
validate_generic_container_spec-nil_iff ctx p r =
    nil_append
      (nil_append
        (nil_append (validate_generic_component_spec-nil_iff p r.generic)
          (validate_component_reference-nil_iff ctx (child p "ref") r.ref))
        (validate_service_account_reference-nil_iff ctx (child p "serviceAccountRef")
          r.service_account_ref))
      (validate_host_capabilities-nil_iff (child p "hostCapabilities") r.host_capabilities)

pub validate_trigger-nil_iff :
    (ctx : Context) (p : FieldPath) (r : Trigger)
    → (validate_trigger ctx p r ≡ [])
      ↔ (HasValidAnnotations r.metadata × IsValidContainerSpec ctx r.spec)
unfolding validate_trigger
validate_trigger-nil_iff ctx p r =
    nil_append (validate_common_annotations-nil_iff p r.metadata)
      (validate_generic_container_spec-nil_iff ctx (child p "spec") r.spec)

abbrev pub IsValidCronSpec : Context → CronTriggerSpec → Type 0
IsValidCronSpec ctx r =
    (IsValidContainerSpec ctx r.container × (r.schedule ≢ "")) × (r.restart_policy ≢ "")

pub validate_cron_trigger_spec-nil_iff :
    (ctx : Context) (p : FieldPath) (r : CronTriggerSpec)
    → (validate_cron_trigger_spec ctx p r ≡ []) ↔ IsValidCronSpec ctx r
unfolding validate_cron_trigger_spec
validate_cron_trigger_spec-nil_iff ctx p r =
    nil_append
      (nil_append (validate_generic_container_spec-nil_iff ctx p r.container)
        (require-nil_iff r.schedule (child p "schedule")))
      (require-nil_iff r.restart_policy (child p "restartPolicy"))

-- A cron trigger passes validation exactly when its annotation is one of the known values, its
-- repository, component reference and service account are valid, the variables of its host
-- capabilities have names, and it has a schedule and a restart policy, whatever these say.
pub validate_cron_trigger-nil_iff :
    (ctx : Context) (p : FieldPath) (r : CronTrigger)
    → (validate_cron_trigger ctx p r ≡ [])
      ↔ (HasValidAnnotations r.metadata × IsValidCronSpec ctx r.spec)
unfolding validate_cron_trigger
validate_cron_trigger-nil_iff ctx p r =
    nil_append (validate_common_annotations-nil_iff p r.metadata)
      (validate_cron_trigger_spec-nil_iff ctx (child p "spec") r.spec)

abbrev pub IsValidImageReference : Context → ImageReference → Type 0
IsValidImageReference ctx r =
    (((r.kind ≡ "Image") ⊎ (r.kind ≡ "ClusterImage")) × IsScoped ctx r.kind r.namespace)
    × (r.name ≢ "")

pub validate_container_image_spec-nil_of :
    (ctx : Context) (p : FieldPath) (r : ComponentContainerImageSpec)
    → IsValidRepositoryReference r.generic.repository_ref
    → IsValidComponentReference ctx r.ref
    → (r.image_ref.kind ≡ "ClusterImage") × (r.image_ref.name ≢ "")
    → validate_container_image_spec ctx p r ≡ []
unfolding validate_container_image_spec validate_image_reference
validate_container_image_spec-nil_of ctx p r repository ref (cluster, named) =
    let a = (validate_generic_component_spec-nil_iff p r.generic).1 repository in
    let b = (validate_component_reference-nil_iff ctx (child p "ref") r.ref).1 ref in
    rw (a, b, cluster)
      ((require-nil_iff r.image_ref.name (child (child p "imageRef") "name")).1 named)
