-- ===== src/Apis/Examples/Containers.antt =====
-- A cron trigger of a namespace `apps`.
use wa8s.Prelude.{true, [], ◌∷◌, none, some}
use wa8s.Apis.Meta.{ObjectMeta, Context}
use wa8s.Apis.Containers.{CronTrigger}

abbrev nightly_meta : ObjectMeta
nightly_meta = record { namespace = "apps"; name = "nightly"; annotations = [] }

abbrev nightly_ctx : Context
nightly_ctx = record { resource = nightly_meta; env_namespace = "" }

abbrev nightly : CronTrigger
nightly = record {
  metadata = nightly_meta;
  spec = record {
    container = record {
      generic = record {
        repository_ref = record { kind = "ClusterRepository"; name = "external" };
      };
      ref = record { api_version = ""; kind = "Component"; namespace = "apps"; name = "report" };
      service_account_ref = record { namespace = "apps"; name = "default" };
      host_capabilities = record {
        env = some (record { inherit = true; vars = record { name = "LEVEL"; value = none } ∷ [] });
        config = none;
        network = none;
      };
    };
    schedule = "0 3 * * *";
    time_zone = none;
    restart_policy = "Never";
  };
}
