-- ===== src/Controllers/Registries/Laws.antt =====
-- internal/controllers/image_controller.go and repository_controller.go: which image is copied, and which
-- repositories are ready.
use wa8s.Prelude.{
  ◌≡◌, ◌≢◌, ◌↔◌, inl, inr, refl, sym, ap, ◌∙◌, String, true, Option, none, some, is_some, arith,
  Option-cases,
}
use wa8s.Reconcile.{Outcome, done, panics, ok, err, Result-cases, Read, ok_injective}
use wa8s.Apis.Meta.{Context}
use wa8s.Apis.Registries.{Repository, RepositoryReference, ServiceAccountReference}
use wa8s.Controllers.{
  State, Externals, Key, KeychainError, missing, other, RepositoryRead, resolve_repository,
  resolve_keychain,
}
use wa8s.Controllers.Copy.Laws.{resolve_repository-Stashes, resolve_keychain-keeps}
use wa8s.Controllers.Registries.{
  Permissions, copy_with, copy_image, repository_keychain, check_repository_authentication,
  sync_repository,
}

module _ {K : Type 0} (x : Externals K) where
  -- A copy of the image, by its digest, to the stashed tag, and its digest is the one reported.
  abbrev pub Copies : String → State K → State K × Outcome → Type 0
  Copies image st (st', o) =
      (o ≢ panics)
      × (o ≡ done
          → (k : K) × (tag : String) × (source : String) × (st.keychain ≡ some k)
            × (st.tag ≡ some tag)
            × (x.resolve_digest image k ≡ ok source)
            × (x.copy source tag k ≡ ok st'.image))

  pub copy_image-Copies :
      (image : String) (st : State K)
      → is_some st.keychain ≡ true
      → is_some st.tag ≡ true
      → Copies image st (copy_image x image st)
  unfolding copy_image copy_with
  copy_image-Copies image st k t = elim (Option-cases st.keychain) [
    | inl e ↦ absurd (ground (arith, k, e))
    | inr (keychain, ek) ↦ elim (Option-cases st.tag) [
      | inl e ↦ absurd (ground (arith, t, e))
      | inr (tag, et) ↦ elim (Result-cases (x.resolve_digest image keychain)) [
        | inr (m, es) ↦ (ground (arith, ek, et, es), λ h. absurd (ground (arith, ek, et, es)))
        | inl (source, es) ↦ elim (Result-cases (x.copy source tag keychain)) [
          | inr (m, ec) ↦
              (ground (arith, ek, et, es, ec), λ h. absurd (ground (arith, ek, et, es, ec)))
          | inl (d, ec) ↦ (
            ground (arith, ek, et, es, ec),
            λ h. (keychain, tag, source, ek, et, es, ground (arith, ek, et, es, ec)),
          )
        ]
      ]
    ]
  ]

  -- Once the repository of an image is resolved without an error, copying the image does not panic.
  pub image_steps_calm :
      (ctx : Context) (get : Key → Read RepositoryRead) (namespace image : String)
      (repository : RepositoryReference) (account : Option ServiceAccountReference) (st : State K)
      → let resolved = resolve_repository x ctx get "RepositoryReady" namespace repository st in
        let keyed = resolve_keychain x "ImageCopied" account resolved.0 in
        resolved.1 ≡ done → (copy_image x image keyed.0).1 ≢ panics
  image_steps_calm ctx get namespace image repository account st h =
      let resolved = resolve_repository x ctx get "RepositoryReady" namespace repository st in
      let keyed = (resolve_keychain x "ImageCopied" account resolved.0).0 in
      let (k, t) =
        resolve_repository-Stashes x ctx get "RepositoryReady" namespace repository st h in
      let (keep, same) = resolve_keychain-keeps x "ImageCopied" account resolved.0 in
      (copy_image-Copies image keyed (keep k) (ap is_some same ∙ t)).0

  -- A repository that images can be pushed to, as far as it can be told.
  abbrev pub IsUsable : Permissions K → Repository → Type 0
  IsUsable w r =
      (k : K) × (tag : String) × (x.keychain_for_repo r ≡ ok k)
      × (x.apply_template r.spec.template ≡ ok tag)
      × (w.transport ≡ ok tt)
      × (w.check_push tag k ≡ none)

  never :
      (w : Permissions K) (r : Repository) (st : State K) (e : String)
      → x.keychain_for_repo r ≡ err e
      → (sync_repository x w r st).1 ≢ done
  unfolding sync_repository repository_keychain
  never w r st e ek h = go (x.account_error e) refl
    where
      go : (a : KeychainError) → x.account_error e ≡ a → ⊥
      go (missing kind) ea = ground (arith, ek, ea)
      go (other text) ea = ground (arith, ek, ea)

  -- Reconciling a repository ends without an error exactly when its keychain is resolved, its
  -- template gives a tag, the transport is set up, and pushing to the tag with the keychain is
  -- permitted: whatever was stashed before.
  pub sync_repository-done_iff :
      (w : Permissions K) (r : Repository) (st : State K)
      → ((sync_repository x w r st).1 ≡ done) ↔ IsUsable w r
  unfolding sync_repository check_repository_authentication repository_keychain
  sync_repository-done_iff w r st = elim (Result-cases (x.keychain_for_repo r)) [
    | inr (e, ek) ↦ (
      λ h. absurd (never w r st e ek h),
      λ u. let (k, tag, a, b, c, d) = u in absurd (let p = sym ek ∙ a in cc),
    )
    | inl (k, ek) ↦ elim (Result-cases (x.apply_template r.spec.template)) [
      | inr (m, et) ↦ (
        λ h. absurd (ground (arith, ek, et)),
        λ u. let (k', tag, a, b, c, d) = u in absurd (let p = sym et ∙ b in cc),
      )
      | inl (tag, et) ↦ elim (Result-cases w.transport) [
        | inr (m, ew) ↦ (
          λ h. absurd (ground (arith, ek, et, ew)),
          λ u. let (k', tag', a, b, c, d) = u in absurd (let p = sym ew ∙ c in cc),
        )
        | inl (u, ew) ↦ elim (Option-cases (w.check_push tag k)) [
          | inl allowed ↦
              (λ h. (k, tag, ek, et, ew, allowed), λ u. ground (arith, ek, et, ew, allowed))
          | inr (m, denied) ↦ (
            λ h. absurd (ground (arith, ek, et, ew, denied)),
            λ u.
                let (k', tag', a, b, c, d) = u in
                let same = ok_injective (sym ek ∙ a) in
                let same' = ok_injective (sym et ∙ b) in absurd (let p = d in cc),
          )
        ]
      ]
    ]
  ]
