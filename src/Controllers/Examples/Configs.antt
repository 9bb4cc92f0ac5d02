-- ===== src/Controllers/Examples/Configs.antt =====
-- A configuration from a config map and two values, of which the last overrides the map.
use wa8s.Prelude.{ℕ, ◌≡◌, ◌≢◌, List, Option, refl, String, [], ◌∷◌, none, some, if◌then◌else◌, ◌==◌}
use wa8s.Reconcile.{Read, found, not_found, Mark, Outcome, done, panics, ok}
use wa8s.Apis.Meta.{lookup}
use wa8s.Apis.Components.ConfigStore.{GenericConfigStoreSpec}
use wa8s.Controllers.Config.{
  Entries, collected, collect_config, collect_values_from, collect_values, sync_config,
}
use wa8s.Controllers.{State, resolve_repository, push_component, reflect_componentable_status}
use wa8s.Controllers.Config.Steps.{componentize_config, config_steps-fit}
use wa8s.Controllers.Examples.{externals, start, ctx, repository, read_repository}
use wa8s.Controllers.Config.Laws.{or_else, in_values, in_values_from, collect_config-lookup}

abbrev config_map : String → Read Entries
config_map name =
    if name == "settings" then found (("level", "info") ∷ ("port", "80") ∷ []) else not_found

abbrev spec : GenericConfigStoreSpec
spec = record {
  values_from = record { name = "settings"; prefix = "app." } ∷ [];
  values =
      record {
        name = "level";
        value = "";
        value_from = some (record { name = "settings"; key = "level" });
      }
      ∷ record { name = "app.port"; value = "8080"; value_from = none }
      ∷ [];
}

abbrev config : Entries
config = ("app.port", "8080") ∷ ("level", "info") ∷ ("app.level", "info") ∷ ("app.port", "80") ∷ []

config_collected : collect_config config_map spec ≡ collected config
unfolding collect_config collect_values_from collect_values lookup
config_collected = refl

collect_config-lookup_example :
    lookup "app.port" config
    ≡ or_else
        (in_values config_map "app.port" spec.values)
        (in_values_from config_map "app.port" spec.values_from)
collect_config-lookup_example =
    collect_config-lookup config_map "app.port" spec config config_collected

abbrev synced : List Mark × Option Entries × Outcome
synced = sync_config config_map spec []

abbrev stored : State ℕ × Outcome
stored =
    resolve_repository externals ctx read_repository "RepositoryReady" "apps" repository
      (record start { marks = synced.0 })

abbrev made : State ℕ × Outcome
made = componentize_config (λ c. ok "bytes") synced.1 (record stored.0 { marks = [] })

abbrev pushed : State ℕ × Outcome
pushed = push_component externals "ComponentPushed" made.0

synced_done : synced.2 ≡ done
unfolding sync_config collect_config collect_values_from collect_values lookup
synced_done = refl

stored_done : stored.1 ≡ done
unfolding sync_config collect_config collect_values_from collect_values lookup resolve_repository
stored_done = refl

config_steps-fit_example :
    (made.1 ≢ panics)
    × (made.1 ≡ done
        → (pushed.1 ≢ panics)
          × (pushed.1 ≡ done → (reflect_componentable_status pushed.0).1 ≡ done))
config_steps-fit_example =
    config_steps-fit externals config_map spec ctx read_repository "apps" repository
      (λ c. ok "bytes") start [] synced_done stored_done
