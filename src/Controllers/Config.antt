-- ===== src/Controllers/Config.antt =====
-- internal/controllers/configstore_controller.go: `CollectConfig`. The map that is built is a list of
-- entries with the latest first. The keys of a config map are distinct, so the order in which its
-- entries are written is of no account.
pub mod Laws
pub mod Collecting
pub mod Steps
use Prim.Native.String
use wa8s.Prelude.{String, List, [], ◌∷◌, ◌++◌, Option, none, some, map}
use wa8s.Reconcile.{
  Outcome, done, fails, durable, failed, Mark, ConditionStatus, is_true, is_false, Read, found,
  not_found, read_error, marked,
}
use wa8s.Apis.Meta.{lookup}
use wa8s.Apis.Components.ConfigStore.{ValuesFrom, ValueFrom, Value, GenericConfigStoreSpec}

abbrev pub Entries : Type 0
Entries = List (String × String)

-- What is collected so far, or the reason of the mark, if any, and the error that ends it.
pub data Collected : Type 0 where
  collected : Entries → Collected
  stopped : Option String → Outcome → Collected

abbrev pub with_prefix : String → String × String → String × String
with_prefix p (k, v) = (String.◌++◌ p k, v)

-- `get` reads the data of a config map of the resource's namespace.
module _ (get : String → Read Entries) where
  abbrev pub use_config_map : (Entries → Collected) → String → Collected
  use_config_map k name = elim (get name) [
    | found entries ↦ k entries
    | not_found ↦ stopped (some "ConfigMapNotFound") (fails durable)
    | read_error e ↦ stopped none (fails (failed e))
  ]

  abbrev pub then_collect : Collected → (Entries → Collected) → Collected
  then_collect (collected c) k = k c
  then_collect (stopped reason o) k = stopped reason o

  -- The loop over `valuesFrom`.
  unfoldable pub collect_values_from : List ValuesFrom → Entries → Collected
  collect_values_from [] c = collected c
  collect_values_from (f ∷ fs) c =
      then_collect
        (use_config_map (λ entries. collected (map (with_prefix f.prefix) entries ++ c)) f.name)
        (λ c'. collect_values_from fs c')

  abbrev pub use_key : String → String → Entries → Entries → Collected
  use_key name key c entries = elim (lookup key entries) [
    | some v ↦ collected ((name, v) ∷ c)
    | none ↦ stopped (some "KeyNotFound") (fails durable)
  ]

  abbrev pub collect_value : Value → Entries → Collected
  collect_value v c = elim v.value_from [
    | none ↦ collected ((v.name, v.value) ∷ c)
    | some f ↦ use_config_map (use_key v.name f.key c) f.name
  ]

  -- The loop over `values`.
  unfoldable pub collect_values : List Value → Entries → Collected
  collect_values [] c = collected c
  collect_values (v ∷ vs) c = then_collect (collect_value v c) (λ c'. collect_values vs c')

  -- The two loops of `CollectConfig`.
  unfoldable pub collect_config : GenericConfigStoreSpec → Collected
  collect_config r =
      then_collect (collect_values_from r.values_from []) (λ c. collect_values r.values c)

abbrev pub end_of : List Mark → Collected → List Mark × Option Entries × Outcome
end_of marks (collected c) = (marked marks "ConfigResolved" is_true "Resolved", some c, done)
end_of marks (stopped none o) = (marks, none, o)
end_of marks (stopped (some reason) o) = (marked marks "ConfigResolved" is_false reason, none, o)

-- `CollectConfig`, `Sync`: the marks, the configuration that it stashes, and how it ends.
unfoldable pub sync_config :
    (String → Read Entries)
    → GenericConfigStoreSpec
    → List Mark
    → List Mark × Option Entries × Outcome
sync_config get r marks = end_of marks (collect_config get r)
