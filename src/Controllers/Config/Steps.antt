-- ===== src/Controllers/Config/Steps.antt =====
-- internal/controllers/configstore_controller.go: `ComponentizeConfig`, and how the steps of the
-- reconciler fit.
use wa8s.Prelude.{◌≡◌, ◌≢◌, String, true, List, Option, none, some, is_some, arith, ◌∙◌, ap}
use wa8s.Reconcile.{Mark, Outcome, done, fails, panics, failed, Result, ok, err, Read}
use wa8s.Apis.Meta.{Context}
use wa8s.Apis.Registries.{RepositoryReference}
use wa8s.Apis.Components.ConfigStore.{GenericConfigStoreSpec}
use wa8s.Controllers.{
  State, Externals, Key, RepositoryRead, resolve_repository, push_component,
  reflect_componentable_status,
}
use wa8s.Controllers.Copy.Laws.{resolve_repository-Stashes}
use wa8s.Controllers.Pushing.{push_component-lem}
use wa8s.Controllers.Config.Collecting.{sync_config-stashes}
use wa8s.Controllers.Config.{Entries, sync_config}

-- `ComponentizeConfig`, `Sync`: `componentize` is `components.ComponentizeConfigStore`.
unfoldable pub componentize_config :
    {K : Type 0} → (Entries → Result String) → Option Entries → State K → State K × Outcome
componentize_config componentize none st = (st, panics)
componentize_config componentize (some config) st = elim (componentize config) [
  | err e ↦ (st, fails (failed e))
  | ok component ↦ (record st { component = some component }, done)
]

module _ {K : Type 0} (x : Externals K) where
  -- The last steps: what they leave, and that they do not panic.
  componentize_config-lem :
      (componentize : Entries → Result String) (config : Option Entries) (st : State K)
      → is_some config ≡ true
      → let (s, o) = componentize_config componentize config st in
        (o ≢ panics)
        × (o ≡ done → is_some s.component ≡ true)
        × (s.keychain ≡ st.keychain)
        × (s.tag ≡ st.tag)
  unfolding componentize_config
  componentize_config-lem componentize none st h = absurd (cc)
  componentize_config-lem componentize (some config) st h = ground arith

  -- The steps of the reconciler of config stores fit together: when the configuration is collected
  -- and the repository resolved without an error, and whatever the step of the child component adds
  -- to the conditions, making the component does not panic, pushing it does not panic either once it
  -- is made, and neither does reflecting the status once it is pushed.
  pub config_steps-fit :
      (get : String → Read Entries) (spec : GenericConfigStoreSpec) (ctx : Context)
      (get_repository : Key → Read RepositoryRead) (namespace : String)
      (repository : RepositoryReference) (componentize : Entries → Result String) (st : State K)
      (marks : List Mark)
      → let (m, config, o) = sync_config get spec st.marks in
        let resolved =
          resolve_repository x ctx get_repository "RepositoryReady" namespace repository
            (record st { marks = m }) in
        let made = componentize_config componentize config (record resolved.0 { marks = marks }) in
        let pushed = push_component x "ComponentPushed" made.0 in
        o ≡ done
        → resolved.1 ≡ done
        → (made.1 ≢ panics)
          × (made.1 ≡ done
              → (pushed.1 ≢ panics)
                × (pushed.1 ≡ done → (reflect_componentable_status pushed.0).1 ≡ done))
  config_steps-fit get spec ctx get_repository namespace repository componentize st marks d r =
      let (m, config, o) = sync_config get spec st.marks in
      let resolved =
        resolve_repository x ctx get_repository "RepositoryReady" namespace repository
          (record st { marks = m }) in
      let made = componentize_config componentize config (record resolved.0 { marks = marks }) in
      let stashed = sync_config-stashes get spec st.marks d in
      let (k, t) =
        resolve_repository-Stashes x ctx get_repository "RepositoryReady" namespace repository
          (record st { marks = m }) r in
      let (calm, makes, same_k, same_t) =
        componentize_config-lem componentize config (record resolved.0 { marks = marks }) stashed in
      (
        calm,
        λ h.
            push_component-lem x "ComponentPushed" made.0 (makes h) (ap is_some same_t ∙ t)
              (ap is_some same_k ∙ k),
      )
