-- ===== src/Controllers/Registries.antt =====
-- internal/controllers/image_controller.go: `CopyImage`; internal/controllers/repository_controller.go:
-- `RepositoryKeychain` and `CheckRepositoryAuthentication`.
pub mod Laws
pub mod Copied
use Prim.Native.String
use wa8s.Prelude.{String, List, [], ◌∷◌, Option, none, some, if◌then◌else◌}
use wa8s.Reconcile.{
  Outcome, done, fails, panics, durable, transient, failed, is_true, is_false, Result, ok, err,
}
use wa8s.Apis.Registries.{Repository}
use wa8s.Controllers.{State, Externals, KeychainError, missing, other, mark}

-- The two other calls for a repository: `CustomTransport`, and `remote.CheckPushPermission` for a tag.
pub record Permissions (K : Type 0) : Type 0 where
  pub transport : Result (Unit {0})
  pub check_push : String → K → Option String

module _ {K : Type 0} (x : Externals K) where
  copy_with : State K → K → String → String → State K × Outcome
  copy_with st keychain tag source = elim (x.copy source tag keychain) [
    | err e ↦ (mark st "ImageCopied" is_false "CopyFailed", fails (failed e))
    | ok digest ↦ (record (mark st "ImageCopied" is_true "Copied") { image = digest }, done)
  ]

  -- `CopyImage`, `Sync`, of the image of the spec.
  unfoldable pub copy_image : String → State K → State K × Outcome
  unfolding copy_with
  copy_image image st = elim st.keychain [
    | none ↦ (st, panics)
    | some keychain ↦ elim st.tag [
      | none ↦ (st, panics)
      | some tag ↦ elim (x.resolve_digest image keychain) [
        | err e ↦ (st, fails (failed e))
        | ok source ↦ copy_with st keychain tag source
      ]
    ]
  ]

  -- `RepositoryKeychain`, `Sync`: the stashed keychain is replaced.
  unfoldable pub repository_keychain : Repository → State K → State K × Outcome
  repository_keychain r st = elim (x.keychain_for_repo r) [
    | ok k ↦ (record (mark st "CredentialsResolved" is_true "Resolved") { keychain = some k }, done)
    | err e ↦ elim (x.account_error e) [
      | missing kind ↦
          (mark st "CredentialsResolved" is_false (String.◌++◌ kind "NotFound"), fails durable)
      | other text ↦ (st, fails (failed text))
    ]
  ]

  abbrev authenticated : State K → Option String → State K × Outcome
  authenticated st none = (mark st "Authenticated" is_true "Authenticated", done)
  authenticated st (some e) = (mark st "Authenticated" is_false "Unauthorized", fails durable)

  -- `CheckRepositoryAuthentication`, `Sync`
  unfoldable pub check_repository_authentication :
      Permissions K → Repository → State K → State K × Outcome
  check_repository_authentication w r st = elim st.keychain [
    | none ↦ (st, fails (transient "keychain"))
    | some k ↦ elim (x.apply_template r.spec.template) [
      | err e ↦ (mark st "Authenticated" is_false "InvalidTemplate", fails durable)
      | ok tag ↦ elim w.transport [
        | err e ↦ (st, fails (failed e))
        | ok t ↦ authenticated st (w.check_push tag k)
      ]
    ]
  ]

  abbrev pub and_check : Permissions K → Repository → State K × Outcome → State K × Outcome
  and_check w r (st, done) = check_repository_authentication w r st
  and_check w r (st, fails e) = (st, fails e)
  and_check w r (st, panics) = (st, panics)

  -- The two steps of `genericRepositoryReconciler`
  unfoldable pub sync_repository : Permissions K → Repository → State K → State K × Outcome
  unfolding repository_keychain
  sync_repository w r st = and_check w r (repository_keychain r st)
