-- ===== src/Services/Examples/Lifecycles.antt =====
-- A lifecycle of a namespace with an instance that depends on it, and its children.
use wa8s.Prelude.{◌≡◌, ◌≢◌, ◌↔◌, refl, String, true, false, [], ◌∷◌, ◌++◌, none, some, nonempty}
use wa8s.Reconcile.{done, panics, ok, is_true, is_false, Observed, found}
use wa8s.Field.{new_path}
use wa8s.Apis.Meta.{
  Context, stash_resource, lookup, api_version_for_kind, validate_common_annotations,
}
use wa8s.Apis.Registries.{validate_repository_reference, validate_service_account_reference}
use wa8s.Apis.Components.{
  ComponentReference, validate_component_reference, validate_generic_component_spec,
}
use wa8s.Apis.Components.Composition.{default_composition, validate_composition}
use wa8s.Apis.Containers.{
  validate_create_trigger, validate_generic_container_spec, validate_host_capabilities,
}
use wa8s.Apis.Services.Instance.{ServiceInstance}
use wa8s.Apis.Services.Lifecycle.{
  ServiceLifecycleSpec, default_service_lifecycle_spec, validate_create_service_lifecycle,
  validate_service_lifecycle, validate_service_lifecycle_spec,
}
use wa8s.Services.Lifecycle.{ServiceLifecycle, Cluster, finalize, ready_to_clear_finalizer}
use wa8s.Services.Lifecycle.Laws.{HasDependent, finalize-clears_iff}
use wa8s.Services.Lifecycle.Children.{
  MergeMaps, TriggerStatus, ClientComponent, TriggerChild, desired_host, desired_trigger,
  reflect_host, reflect_trigger, reflect_client_component,
}
use wa8s.Services.Lifecycle.Children.Admitted.{desired_host-admitted}
use wa8s.Services.Lifecycle.Children.Served.{desired_trigger-admitted}
use wa8s.Services.Lifecycle.Children.Steps.{Turn, sync_lifecycle, sync_lifecycle-serves}
use wa8s.Services.Lifecycle.Children.Misplaced.{
  host_condition, IsHosted, IsImageless, sync_lifecycle-misplaces_iff,
}

abbrev pub to_component : String → ComponentReference
to_component name = record { api_version = ""; kind = ""; namespace = ""; name = name }

abbrev pub given : ServiceLifecycleSpec
given = record {
  container = record {
    generic = record { repository_ref = record { kind = ""; name = "" } };
    ref = to_component "postgres-lifecycle";
    service_account_ref = record { namespace = ""; name = "" };
    host_capabilities = record { env = none; config = none; network = none };
  };
  client_ref = to_component "postgres-client";
}

abbrev pub defaulted : ComponentReference → ComponentReference
defaulted r = record r {
  api_version = "wa8s.reconciler.io/v1alpha1";
  kind = "Component";
  namespace = "apps";
}

-- The lifecycle with the defaults of its spec.
abbrev pub postgres : ServiceLifecycle
postgres = record {
  metadata = record { namespace = "apps"; name = "postgres"; annotations = [] };
  labels = [];
  spec = record {
    container = record given.container {
      generic = record {
        repository_ref = record { kind = "ClusterRepository"; name = "external" };
      };
      ref = defaulted (to_component "postgres-lifecycle");
      service_account_ref = record { namespace = "apps"; name = "default" };
    };
    client_ref = defaulted (to_component "postgres-client");
  };
  marks = [];
  finalizer = none;
  image = "";
  url = "";
}

abbrev pub ctx : Context
ctx = record { resource = postgres.metadata; env_namespace = "" }

abbrev db : ServiceInstance
db = record {
  metadata = record { namespace = "apps"; name = "db"; annotations = [] };
  spec = record {
    ref = record { kind = "ServiceLifecycle"; namespace = ""; name = "postgres" };
    type = "small";
    tier = "";
    requests = [];
  };
  service_instance_id = "uid-db";
}

abbrev cluster : Cluster
cluster = record {
  ctx = ctx;
  kind = ok "ServiceLifecycle";
  namespaced = ok true;
  instances = ok (db ∷ []);
  track = λ i. none;
  clear_condition = none;
}

finalize-clears_iff_example :
    let (r', o) = finalize cluster postgres in
    (o ≡ done)
    × ((ready_to_clear_finalizer r' ≡ true)
        ↔ (¬ HasDependent "ServiceLifecycle" true postgres (db ∷ [])))
finalize-clears_iff_example =
    finalize-clears_iff cluster postgres "ServiceLifecycle" true (db ∷ []) refl refl refl
      (λ i. refl) refl

is_defaulted :
    postgres.spec ≡ default_service_lifecycle_spec (stash_resource ctx postgres.metadata) given
unfolding default_service_lifecycle_spec lookup api_version_for_kind
is_defaulted = refl

is_admitted : validate_create_service_lifecycle ctx postgres.metadata given ≡ []
unfolding validate_common_annotations validate_repository_reference
    validate_service_account_reference validate_create_service_lifecycle validate_service_lifecycle
    lookup validate_service_lifecycle_spec validate_generic_container_spec
    validate_component_reference validate_generic_component_spec validate_host_capabilities
    default_service_lifecycle_spec api_version_for_kind
is_admitted = refl

abbrev append_maps : MergeMaps
append_maps = λ a b. a ++ b

abbrev label_key : String
label_key = "services.wa8s.reconciler.io/service-lifecycle"

desired_host-admitted_example :
    let composition = (desired_host append_maps label_key ctx postgres).composition in
    validate_composition
      (stash_resource ctx composition.metadata)
      (new_path "")
      (default_composition ctx composition)
    ≡ []
desired_host-admitted_example =
    desired_host-admitted append_maps label_key ctx postgres given (new_path "") is_defaulted
      is_admitted

abbrev trigger_child : TriggerChild
trigger_child = record {
  labels = (label_key, "postgres") ∷ [];
  trigger = record {
    metadata = record { namespace = "apps"; name = "postgres-lifecycle"; annotations = [] };
    spec = record postgres.spec.container {
      ref = record { api_version = ""; kind = "Composition"; namespace = ""; name = "postgres-x7" };
    };
  };
}

is_desired :
    desired_trigger append_maps label_key ctx postgres (some "postgres-x7") ≡ some trigger_child
unfolding desired_trigger
is_desired = refl

desired_trigger-admitted_example : validate_create_trigger ctx trigger_child.trigger ≡ []
desired_trigger-admitted_example =
    desired_trigger-admitted append_maps label_key "postgres-x7" ctx postgres given trigger_child
      is_defaulted is_admitted (nonempty "postgres-x7" refl) is_desired

abbrev pub ready : Observed
ready = record {
  generation = 2;
  observed_generation = 2;
  ready_is_true = true;
  ready_is_false = false;
}

abbrev served : TriggerStatus
served = record { observed = ready; url = "http://postgres-lifecycle-trigger.apps" }

abbrev imageless : ClientComponent
imageless = record { observed = ready; image = "" }

abbrev turn : Turn
turn = record {
  merge_maps = append_maps;
  key = label_key;
  ctx = ctx;
  host_error = none;
  host = some (record { name = "postgres-x7"; observed = ready; image = "registry/host" });
  trigger_error = none;
  trigger = some served;
  resolve = λ ref. found imageless;
}

sync_lifecycle-serves_example :
    let (r', o) = sync_lifecycle turn postgres in
    (o ≢ panics)
    × (o ≡ done → (c : TriggerStatus) × (turn.trigger ≡ some c) × (r'.url ≡ c.url) × (c.url ≢ ""))
sync_lifecycle-serves_example = sync_lifecycle-serves turn postgres refl

ends_well : (sync_lifecycle turn postgres).1 ≡ done
unfolding sync_lifecycle reflect_host desired_trigger reflect_trigger reflect_client_component
ends_well = refl

sync_lifecycle-misplaces_iff_example :
    IsHosted turn
    × ((host_condition (sync_lifecycle turn postgres).0 ≡ some is_false)
        ↔ IsImageless turn postgres.spec.client_ref)
    × ((host_condition (sync_lifecycle turn postgres).0 ≡ some is_true)
        ↔ (¬ IsImageless turn postgres.spec.client_ref))
sync_lifecycle-misplaces_iff_example = sync_lifecycle-misplaces_iff turn postgres refl ends_well
