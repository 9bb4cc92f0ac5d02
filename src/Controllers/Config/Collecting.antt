-- ===== src/Controllers/Config/Collecting.antt =====
-- internal/controllers/configstore_controller.go: collecting stashes a configuration or ends in an error.
use wa8s.Prelude.{
  ◌≡◌, ◌≢◌, inl, inr, refl, String, true, List, none, some, is_some, arith, Option-cases, sym, [],
  ◌∷◌, ◌++◌, map,
}
use mathlib.Core.Path.{subst}
use wa8s.Reconcile.{Mark, done, fails, failed, durable, Read, Read-cases}
use wa8s.Apis.Meta.{lookup}
use wa8s.Apis.Components.ConfigStore.{GenericConfigStoreSpec, ValuesFrom, Value}
use wa8s.Controllers.Config.{
  Entries, Collected, collected, stopped, collect_config, end_of, sync_config, use_config_map,
  then_collect, collect_values_from, collect_values, collect_value, use_key, with_prefix,
}

-- What is collected, or an error.
abbrev EndsInError : Collected → Type 0
EndsInError (collected c) = Unit {0}
EndsInError (stopped reason o) = o ≢ done

module _ (get : String → Read Entries) where
  use_config_map-EndsInError :
      (k : Entries → Collected) (name : String)
      → ((c : Entries) → EndsInError (k c))
      → EndsInError (use_config_map get k name)
  use_config_map-EndsInError k name each = elim (Read-cases (get name)) [
    | inl (c, e) ↦
        let same : use_config_map get k name ≡ k c = ground (arith, e) in
        subst (λ (x : Collected). EndsInError x) (sym same) (each c)
    | inr (inl e) ↦
        let same : use_config_map get k name ≡ stopped (some "ConfigMapNotFound") (fails durable) =
          ground (arith, e) in
        subst (λ (x : Collected). EndsInError x) (sym same) (λ h. cc)
    | inr (inr (m, e)) ↦
        let same : use_config_map get k name ≡ stopped none (fails (failed m)) =
          ground (arith, e) in
        subst (λ (x : Collected). EndsInError x) (sym same) (λ h. cc)
  ]

  then_collect-EndsInError :
      (c : Collected) (k : Entries → Collected)
      → EndsInError c
      → ((x : Entries) → EndsInError (k x))
      → EndsInError (then_collect get c k)
  then_collect-EndsInError (collected c) k first each = each c
  then_collect-EndsInError (stopped reason o) k first each = first

  collect_values_from-EndsInError :
      (fs : List ValuesFrom) (c : Entries) → EndsInError (collect_values_from get fs c)
  unfolding collect_values_from
  collect_values_from-EndsInError [] c = tt
  collect_values_from-EndsInError (f ∷ fs) c =
      let later = collect_values_from-EndsInError fs in
      then_collect-EndsInError _ _
        (use_config_map-EndsInError (λ entries. collected (map (with_prefix f.prefix) entries ++ c))
          f.name (λ x. tt))
        later

  use_key-EndsInError :
      (name key : String) (c entries : Entries) → EndsInError (use_key get name key c entries)
  use_key-EndsInError name key c entries = elim (Option-cases (lookup key entries)) [
    | inl e ↦
        let same : use_key get name key c entries ≡ stopped (some "KeyNotFound") (fails durable) =
          ground (arith, e) in
        subst (λ (x : Collected). EndsInError x) (sym same) (λ h. cc)
    | inr (v, e) ↦
        let same : use_key get name key c entries ≡ collected ((name, v) ∷ c) = ground (arith, e) in
        subst (λ (x : Collected). EndsInError x) (sym same) tt
  ]

  collect_value-EndsInError : (v : Value) (c : Entries) → EndsInError (collect_value get v c)
  collect_value-EndsInError v c = elim (Option-cases v.value_from) [
    | inl e ↦ rw e tt
    | inr (f, e) ↦ rw e (
        use_config_map-EndsInError (use_key get v.name f.key c) f.name
          (use_key-EndsInError v.name f.key c))
  ]

  collect_values-EndsInError :
      (vs : List Value) (c : Entries) → EndsInError (collect_values get vs c)
  unfolding collect_values
  collect_values-EndsInError [] c = tt
  collect_values-EndsInError (v ∷ vs) c =
      let later = collect_values-EndsInError vs in
      then_collect-EndsInError (collect_value get v c) _ (collect_value-EndsInError v c) later

  collect_config-EndsInError : (r : GenericConfigStoreSpec) → EndsInError (collect_config get r)
  unfolding collect_config
  collect_config-EndsInError r =
      then_collect-EndsInError (collect_values_from get r.values_from []) _
        (collect_values_from-EndsInError r.values_from []) (collect_values-EndsInError r.values)

  end_of-stashes :
      (marks : List Mark) (c : Collected)
      → EndsInError c
      → let (m, config, o) = end_of marks c in o ≡ done → is_some config ≡ true
  end_of-stashes marks (collected c) ends h = refl
  end_of-stashes marks (stopped none o) ends h = absurd (ends h)
  end_of-stashes marks (stopped (some r) o) ends h = absurd (ends h)

  pub sync_config-stashes :
      (r : GenericConfigStoreSpec) (marks : List Mark)
      → let (m, config, o) = sync_config get r marks in o ≡ done → is_some config ≡ true
  unfolding sync_config
  sync_config-stashes r marks =
      end_of-stashes marks (collect_config get r) (collect_config-EndsInError r)
