-- ===== src/Triggers/Examples.antt =====
-- An HTTP trigger of a namespace `apps`, and the theorems at it.
use wa8s.Prelude.{◌≡◌, refl, true, false, [], ◌∷◌, ◌++◌, none, some, nonempty}
use wa8s.Reconcile.{Observed}
use wa8s.Apis.Meta.{ObjectMeta, Context, stash_resource}
use wa8s.Apis.Containers.{
  GenericContainerSpec, default_generic_container_spec, validate_create_container_image,
  validate_create_trigger,
}
use wa8s.Trace.{nil, span}
use wa8s.Triggers.{Container, Labels, ImageStatus, desired_image}
use wa8s.Triggers.Workloads.{http}
use wa8s.Triggers.Steps.{Turn, base_image, sync_trigger}
use wa8s.Triggers.Laws.{Serves, sync_trigger-Serves}
use wa8s.Triggers.Admitted.{desired_image-admitted}

abbrev meta : ObjectMeta
meta = record { namespace = "apps"; name = "shop"; annotations = [] }

abbrev ctx : Context
ctx = record { resource = meta; env_namespace = "" }

abbrev given : GenericContainerSpec
given = record {
  generic = record { repository_ref = record { kind = ""; name = "" } };
  ref = record { api_version = ""; kind = "Component"; namespace = ""; name = "shop" };
  service_account_ref = record { namespace = ""; name = "" };
  host_capabilities = record { env = none; config = none; network = none };
}

abbrev shop : Container
shop = record {
  metadata = meta;
  labels = ("app", "shop") ∷ [];
  spec = default_generic_container_spec (stash_resource ctx meta) given;
  image = "";
  wit = none;
  trace = nil;
  url = "";
  marks = [];
}

abbrev ready : Observed
ready = record {
  generation = 1;
  observed_generation = 1;
  ready_is_true = true;
  ready_is_false = false;
}

abbrev built : ImageStatus
built = record {
  observed = ready;
  image = "registry/shop@sha256:1";
  wit = none;
  span =
      span
        (record {
          digest = "sha256:1";
          uid = "uid-2";
          group = "containers.wa8s.reconciler.io";
          kind = "ComponentContainerImage";
          namespace = "apps";
          name = "shop-1";
        })
        nil false;
}

abbrev turn : Turn
turn = record {
  image_error = none;
  image = some built;
  deployment_error = none;
  deployment = some (record {
    generation = 1;
    observed_generation = 1;
    ready_replicas = 1;
    updated_replicas = 1;
  });
  service_error = none;
  service = some ("shop-trigger", "apps");
}

abbrev join : Labels → Labels → Labels
join xs ys = xs ++ ys

sync_trigger-Serves_example : Serves turn (sync_trigger http join "http-trigger" turn shop)
sync_trigger-Serves_example = sync_trigger-Serves http join "http-trigger" turn shop

served_at :
    (sync_trigger http join "http-trigger" turn shop).container.url
    ≡ "http://shop-trigger.apps.svc.cluster.local"
unfolding sync_trigger wa8s.Triggers.reflect_image wa8s.Triggers.Workloads.reflect_deployment
    wa8s.Triggers.Workloads.reflect_service http
served_at = refl

shop_admitted : validate_create_trigger ctx (record { metadata = meta; spec = given }) ≡ []
unfolding default_generic_container_spec validate_create_trigger
    wa8s.Apis.Containers.default_trigger wa8s.Apis.Containers.validate_trigger
    wa8s.Apis.Meta.validate_common_annotations wa8s.Apis.Meta.lookup
    wa8s.Apis.Containers.validate_generic_container_spec
    wa8s.Apis.Components.validate_generic_component_spec
    wa8s.Apis.Registries.validate_repository_reference
    wa8s.Apis.Components.validate_component_reference wa8s.Apis.Meta.api_version_for_kind
    wa8s.Apis.Registries.validate_service_account_reference
    wa8s.Apis.Containers.validate_host_capabilities
shop_admitted = refl

desired_image-admitted_example :
    validate_create_container_image ctx
      (desired_image join "http-trigger" (base_image "wasmtime") shop).image
    ≡ []
desired_image-admitted_example =
    desired_image-admitted join "http-trigger" "wasmtime" ctx shop given (nonempty "wasmtime" refl)
      (nonempty "apps" refl) refl shop_admitted
