-- ===== src/Services/Examples/Instances.antt =====
-- An instance that is provisioned, and then deleted with and without a binding.
use wa8s.Prelude.{
  ◌≡◌, ◌≢◌, ◌↔◌, refl, String, true, false, List, [], ◌∷◌, Option, none, some, if◌then◌else◌, ◌==◌,
  nonempty,
}
use wa8s.Reconcile.{found, done}
use wa8s.Services.Instance.{
  Instance, Lifecycle, Call, destroy, Dependent, Api, finalize, resolve_service_lifecycle,
}
use wa8s.Services.Instance.Laws.{
  IsFree, Gives, history, provisions, history-provisions_once, finalize-destroys_iff,
  resolve_service_lifecycle-stashes_iff,
}

abbrev unprovisioned : Instance
unprovisioned = record {
  namespace = "apps";
  name = "db";
  uid = "uid-db";
  spec = record {
    ref = record { kind = "ClusterServiceLifecycle"; namespace = ""; name = "postgres" };
    type = "small";
    tier = "";
    requests = [];
  };
  service_instance_id = "";
  marks = [];
}

abbrev provisioned : Instance
provisioned = record unprovisioned { service_instance_id = "uid-db" }

abbrev accepts : Call → Option String
accepts call = none

abbrev refuses : Call → Option String
refuses call = some "busy"

abbrev turns : List ((Call → Option String) × Option String)
turns = (refuses, some "http://db") ∷ (accepts, some "http://db") ∷ (accepts, some "http://db") ∷ []

history-provisions_once_example :
    provisions (history turns unprovisioned).1
    ≡ (if (history turns unprovisioned).0.service_instance_id == "" then 0 else 1)
history-provisions_once_example =
    history-provisions_once turns unprovisioned (nonempty "uid-db" refl) refl

abbrev dependents : List Dependent
dependents = record { name = "app-1"; ref_name = "cache" } ∷ []

abbrev api : Api
api = record { bindings = found dependents; track = λ d. none; clear_condition = none }

finalize-destroys_iff_example :
    ((finalize accepts api (some "http://db") provisioned).calls
      ≡ (destroy "http://db" "uid-db" false, none) ∷ [])
    ↔ ((provisioned.service_instance_id ≢ "") × IsFree "db" dependents)
finalize-destroys_iff_example =
    finalize-destroys_iff accepts api "http://db" provisioned dependents refl

abbrev postgres : Lifecycle
postgres = record {
  observed = record {
    generation = 2;
    observed_generation = 2;
    ready_is_true = true;
    ready_is_false = false;
  };
  url = "";
}

resolve_service_lifecycle-stashes_iff_example :
    (((resolve_service_lifecycle (λ key. found postgres) unprovisioned).1 ≡ some "")
      × ((resolve_service_lifecycle (λ key. found postgres) unprovisioned).2 ≡ done))
    ↔ Gives postgres ""
resolve_service_lifecycle-stashes_iff_example =
    resolve_service_lifecycle-stashes_iff (λ key. found postgres) unprovisioned postgres "" refl
