-- ===== src/Registry/Keychain.antt =====
-- registry/keychain.go: the keychain of a service account.
use wa8s.Prelude.{String, List, [], ◌∷◌}
use wa8s.Reconcile.{Result, ok}
use wa8s.Apis.Registries.{ServiceAccountReference, Repository}
use wa8s.Registry.{◌>>=◌}

-- A service account as it is read: its namespace and the names of its pull secrets.
pub record ServiceAccount : Type 0 where
  pub namespace : String
  pub image_pull_secrets : List String

module _ {S K : Type 0} (get_account : String → String → Result ServiceAccount)
    (get_secret : String → String → Result S) (new_keychain : List S → Result K) where
  -- The loop over the pull secrets.
  unfoldable pub pull_secrets : String → List String → Result (List S)
  pull_secrets namespace [] = ok []
  pull_secrets namespace (name ∷ names) = do
    secret ← get_secret namespace name
    secrets ← pull_secrets namespace names
    ok (secret ∷ secrets)

  -- `KeychainForServiceAccountRef`; `new_keychain` is `k8schain.NewFromPullSecrets`.
  unfoldable pub keychain_for_service_account_ref : ServiceAccountReference → Result K
  unfolding pull_secrets
  keychain_for_service_account_ref ref = do
    account ← get_account ref.namespace ref.name
    secrets ← pull_secrets account.namespace account.image_pull_secrets
    new_keychain secrets

  -- `KeychainForRepo`
  unfoldable pub keychain_for_repo : Repository → Result K
  unfolding keychain_for_service_account_ref
  keychain_for_repo repo = keychain_for_service_account_ref repo.spec.service_account_ref
