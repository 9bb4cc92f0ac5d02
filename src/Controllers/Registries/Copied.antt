-- ===== src/Controllers/Registries/Copied.antt =====
-- internal/controllers/image_controller.go: when an image is copied, and to which tag, told from the
-- calls of other packages.
use wa8s.Prelude.{
  ◌≡◌, ◌≢◌, ◌↔◌, ◌⊎◌, inl, inr, refl, sym, ap, ◌∙◌, String, true, Option, none, some, is_some,
  arith, eq_iff, ◌==◌, Option-cases, Bool-cases,
}
use mathlib.Core.Path.{subst}
use wa8s.Reconcile.{
  Outcome, done, panics, Observed, ok, err, Result-cases, some_injective, ok_injective, Read, found,
  Read-cases,
}
use wa8s.Apis.Meta.{Context}
use wa8s.Apis.Registries.{
  Repository, RepositoryReference, ServiceAccountReference, default_repository,
  default_cluster_repository,
}
use wa8s.Controllers.{
  State, Externals, Key, KeychainError, missing, other, cluster_key, namespaced_key, RepositoryRead,
  gate, repository_key, use_repository, default_read_repository, resolve_repository,
  resolve_keychain,
}
use wa8s.Controllers.Registries.{copy_image, copy_with}
use wa8s.Controllers.Registries.Laws.{image_steps_calm, copy_image-Copies}

-- Where the repository of a reference is found: in the cluster, or in the namespace of the image.
abbrev pub IsKeyOf : String → RepositoryReference → Key → Type 0
IsKeyOf namespace ref key =
    ((ref.kind ≡ "ClusterRepository") × (key ≡ cluster_key ref.name))
    ⊎ ((ref.kind ≢ "ClusterRepository") × (key ≡ namespaced_key namespace ref.name))

-- The repository that was read with the defaults of its kind.
abbrev pub IsDefaulted : Context → RepositoryReference → Repository → Repository → Type 0
IsDefaulted ctx ref r d =
    ((ref.kind ≡ "ClusterRepository") × (d ≡ default_cluster_repository ctx r))
    ⊎ ((ref.kind ≢ "ClusterRepository") × (d ≡ default_repository ctx r))

abbrev pub IsCurrent : Observed → Type 0
IsCurrent o = (o.generation ≡ o.observed_generation) × (o.ready_is_true ≡ true)

module _ {K : Type 0} (x : Externals K) where
  -- The repository is read, current and ready; its keychain is resolved, and its template, once it is
  -- defaulted, gives the tag.
  pub record Resolves (ctx : Context) (get : Key → Read RepositoryRead) (namespace : String)
      (ref : RepositoryReference) (k : K) (tag : String) : Type 0 where
    pub key : Key
    pub is_key : IsKeyOf namespace ref key
    pub read : RepositoryRead
    pub is_read : get key ≡ found read
    pub is_current : IsCurrent read.observed
    pub repository : Repository
    pub is_defaulted : IsDefaulted ctx ref read.repository repository
    pub has_keychain : x.keychain_for_repo repository ≡ ok k
    pub has_tag : x.apply_template repository.spec.template ≡ ok tag

  -- The keychain of the repository, and before it the one of the account, if there is an account.
  abbrev pub WithAccount : Option ServiceAccountReference → K → K → Type 0
  WithAccount none k k' = k' ≡ k
  WithAccount (some account) k k' =
      (own : K) × (x.keychain_for_account account ≡ ok own) × (k' ≡ x.multi own k)

  -- The image is copied, by its digest and with both keychains, to the tag of the repository, and the
  -- digest of the copy is the one that is reported.
  pub record IsCopied (ctx : Context) (get : Key → Read RepositoryRead) (namespace image : String)
      (ref : RepositoryReference) (account : Option ServiceAccountReference) (reported : String)
      : Type 0 where
    pub keychain_of_repository : K
    pub tag : String
    pub resolves : Resolves ctx get namespace ref keychain_of_repository tag
    pub keychain : K
    pub with_account : WithAccount account keychain_of_repository keychain
    pub source : String
    pub is_source : x.resolve_digest image keychain ≡ ok source
    pub is_copied : x.copy source tag keychain ≡ ok reported

  repository_key-IsKeyOf :
      (namespace : String) (ref : RepositoryReference)
      → IsKeyOf namespace ref (repository_key namespace ref)
  repository_key-IsKeyOf namespace ref = ground (arith, eq_iff ref.kind "ClusterRepository")

  IsKeyOf-repository_key :
      (namespace : String) (ref : RepositoryReference) (key : Key)
      → IsKeyOf namespace ref key
      → repository_key namespace ref ≡ key
  IsKeyOf-repository_key namespace ref key h = ground (arith, eq_iff ref.kind "ClusterRepository")

  default_read_repository-IsDefaulted :
      (ctx : Context) (ref : RepositoryReference) (r : Repository)
      → IsDefaulted ctx ref r (default_read_repository ctx ref r)
  default_read_repository-IsDefaulted ctx ref r =
      elim (Bool-cases (ref.kind == "ClusterRepository")) [
        | inl e ↦ inl ((eq_iff ref.kind "ClusterRepository").0 e, ground (arith, e))
        | inr e ↦ inr (
          λ same. absurd (let p = (eq_iff ref.kind "ClusterRepository").1 same in cc),
          ground (arith, e),
        )
      ]

  IsDefaulted-default_read_repository :
      (ctx : Context) (ref : RepositoryReference) (r d : Repository)
      → IsDefaulted ctx ref r d
      → default_read_repository ctx ref r ≡ d
  IsDefaulted-default_read_repository ctx ref r d (inl (kind, same)) =
      let e = (eq_iff ref.kind "ClusterRepository").1 kind in ground (arith, e, same)
  IsDefaulted-default_read_repository ctx ref r d (inr (kind, same)) =
      elim (Bool-cases (ref.kind == "ClusterRepository")) [
        | inl e ↦ absurd (kind ((eq_iff ref.kind "ClusterRepository").0 e))
        | inr e ↦ ground (arith, e, same)
      ]

  gate-IsCurrent : (o : Observed) → (gate "RepositoryNotReady" o ≡ none) ↔ IsCurrent o
  gate-IsCurrent o = ground arith

  -- What the first step leaves.
  abbrev Leaves : K → String → State K × Outcome → Type 0
  Leaves k tag end = (end.1 ≡ done) × (end.0.keychain ≡ some k) × (end.0.tag ≡ some tag)

  module _ (ctx : Context) (get : Key → Read RepositoryRead) (namespace : String)
      (ref : RepositoryReference) (st : State K) where
    Resolves-Leaves :
        (k : K) (tag : String)
        → st.keychain ≡ none
        → Resolves ctx get namespace ref k tag
        → Leaves k tag (resolve_repository x ctx get "RepositoryReady" namespace ref st)
    unfolding resolve_repository use_repository
    Resolves-Leaves k tag fresh r =
        let e = ap get (IsKeyOf-repository_key namespace ref r.key r.is_key) ∙ r.is_read in
        let g = (gate-IsCurrent r.read.observed).1 r.is_current in
        let d = default_read_repository ctx ref r.read.repository in
        let same =
          IsDefaulted-default_read_repository ctx ref r.read.repository r.repository
            r.is_defaulted in
        let ek : x.keychain_for_repo d ≡ ok k = ap x.keychain_for_repo same ∙ r.has_keychain in
        let et : x.apply_template d.spec.template ≡ ok tag =
          ap (λ (q : Repository). x.apply_template q.spec.template) same ∙ r.has_tag in
        ground (arith, e, g, ek, et, fresh)

    Leaves-Resolves :
        (resolve_repository x ctx get "RepositoryReady" namespace ref st).1 ≡ done
        → (k : K) × (tag : String) × Resolves ctx get namespace ref k tag
    unfolding resolve_repository use_repository
    Leaves-Resolves h = elim (Read-cases (get (repository_key namespace ref))) [
      | inr (inl e) ↦ absurd (ground (arith, e, h))
      | inr (inr (m, e)) ↦ absurd (ground (arith, e, h))
      | inl (r, e) ↦ elim (Option-cases (gate "RepositoryNotReady" r.observed)) [
        | inr (stop, g) ↦ absurd (ground (arith, e, g, h))
        | inl g ↦
            let d = default_read_repository ctx ref r.repository in
            elim (Result-cases (x.keychain_for_repo d)) [
              | inr (m, ek) ↦ absurd (ground (arith, e, g, ek, h))
              | inl (k, ek) ↦ elim (Result-cases (x.apply_template d.spec.template)) [
                | inr (m, et) ↦ absurd (ground (arith, e, g, ek, et, h))
                | inl (tag, et) ↦ (
                  k,
                  tag,
                  record {
                    key = repository_key namespace ref;
                    is_key = repository_key-IsKeyOf namespace ref;
                    read = r;
                    is_read = e;
                    is_current = (gate-IsCurrent r.observed).0 g;
                    repository = d;
                    is_defaulted = default_read_repository-IsDefaulted ctx ref r.repository;
                    has_keychain = ek;
                    has_tag = et;
                  },
                )
              ]
            ]
      ]
    ]

  copied_along :
      (k k' : K) (tag tag' source digest : String)
      → k ≡ k'
      → tag ≡ tag'
      → x.copy source tag k ≡ ok digest
      → x.copy source tag' k' ≡ ok digest
  copied_along k k' tag tag' source digest e f h = cc

  refused :
      (account : ServiceAccountReference) (st : State K) (m : String)
      → x.keychain_for_account account ≡ err m
      → (resolve_keychain x "ImageCopied" (some account) st).1 ≢ done
  unfolding resolve_keychain
  refused account st m e h = go (x.account_error m) refl
    where
      go : (a : KeychainError) → x.account_error m ≡ a → ⊥
      go (missing kind) ea = ground (arith, e, ea, h)
      go (other text) ea = ground (arith, e, ea, h)

  -- The second step keeps the tag, and leaves the keychain with that of the account.
  keyed_iff :
      (account : Option ServiceAccountReference) (st : State K) (k : K) (tag : String)
      → st.keychain ≡ some k
      → st.tag ≡ some tag
      → let (st', o) = resolve_keychain x "ImageCopied" account st in
        (o ≡ done → (k' : K) × WithAccount account k k')
        × ((k' : K) → WithAccount account k k' → Leaves k' tag (st', o))
  unfolding resolve_keychain
  keyed_iff none st k tag ek et = (λ h. (k, refl), λ k' same. (refl, ek ∙ ap some (sym same), et))
  keyed_iff (some account) st k tag ek et = elim (Result-cases (x.keychain_for_account account)) [
    | inl (own, e) ↦ (
      λ h. (x.multi own k, (own, e, refl)),
      λ k' w.
          let (own', e', same) = w in
          let equal : own ≡ own' = ok_injective (sym e ∙ e') in
          ground (arith, e, ek, et, same, equal),
    )
    | inr (m, e) ↦ (
      λ h. absurd (refused account st m e h),
      λ k' w. let (own', e', same) = w in absurd (let p = sym e ∙ e' in cc),
    )
  ]

  -- The last step is done exactly when the image is resolved and copied.
  copied_iff :
      (image : String) (st : State K) (k : K) (tag : String)
      → st.keychain ≡ some k
      → st.tag ≡ some tag
      → let (st', o) = copy_image x image st in
        (o ≡ done
          → (source : String) × (x.resolve_digest image k ≡ ok source)
            × (x.copy source tag k ≡ ok st'.image))
        × ((source digest : String)
            → x.resolve_digest image k ≡ ok source
            → x.copy source tag k ≡ ok digest
            → (o ≡ done) × (st'.image ≡ digest))
  unfolding copy_image copy_with
  copied_iff image st k tag ek et = (
    λ h.
        let (k₁, tag₁, source, ek₁, et₁, es, ec) =
          (copy_image-Copies x image st (ap is_some ek) (ap is_some et)).1 h in
        let same : k₁ ≡ k = some_injective (sym ek₁ ∙ ek) in
        let same' : tag₁ ≡ tag = some_injective (sym et₁ ∙ et) in
        (
          source,
          subst (λ (q : K). x.resolve_digest image q ≡ ok source) same es,
          copied_along k₁ k tag₁ tag source _ same same' ec,
        ),
    λ source digest es ec. ground (arith, ek, et, es, ec),
  )

  -- Where no keychain is stashed at the start, the three steps for an image all end without an error
  -- exactly when its repository is found, current and ready, the keychains of the repository and of
  -- the account are resolved, the template of the defaulted repository gives a tag, and the image is
  -- resolved and copied to that tag with these keychains; the status then reports the digest of the
  -- copy. The last step does not panic once the first one has ended without an error.
  pub image_steps-copy_iff :
      (ctx : Context) (get : Key → Read RepositoryRead) (namespace image : String)
      (ref : RepositoryReference) (account : Option ServiceAccountReference) (st : State K)
      → st.keychain ≡ none
      → let resolved = resolve_repository x ctx get "RepositoryReady" namespace ref st in
        let keyed = resolve_keychain x "ImageCopied" account resolved.0 in
        let copied = copy_image x image keyed.0 in
        (resolved.1 ≡ done → copied.1 ≢ panics)
        × ((resolved.1 ≡ done) × (keyed.1 ≡ done) × (copied.1 ≡ done)
            → IsCopied ctx get namespace image ref account copied.0.image)
        × ((reported : String)
            → IsCopied ctx get namespace image ref account reported
            → (resolved.1 ≡ done)
              × (keyed.1 ≡ done)
              × (copied.1 ≡ done)
              × (copied.0.image ≡ reported))
  image_steps-copy_iff ctx get namespace image ref account st fresh =
      let resolved = resolve_repository x ctx get "RepositoryReady" namespace ref st in
      let keyed = resolve_keychain x "ImageCopied" account resolved.0 in
      (
        image_steps_calm x ctx get namespace image ref account st,
        λ ends.
            let (h, h', h'') = ends in
            let (k, tag, r) = Leaves-Resolves ctx get namespace ref st h in
            let (_, ek, et) = Resolves-Leaves ctx get namespace ref st k tag fresh r in
            let step = keyed_iff account resolved.0 k tag ek et in
            let (k', w) = step.0 h' in
            let (_, ek', et') = step.1 k' w in
            let (source, es, ec) = (copied_iff image keyed.0 k' tag ek' et').0 h'' in
            record {
              keychain_of_repository = k;
              tag = tag;
              resolves = r;
              keychain = k';
              with_account = w;
              source = source;
              is_source = es;
              is_copied = ec;
            },
        λ reported c.
            let (h, ek, et) =
              Resolves-Leaves ctx get namespace ref st c.keychain_of_repository c.tag fresh
                c.resolves in
            let step = keyed_iff account resolved.0 c.keychain_of_repository c.tag ek et in
            let (h', ek', et') = step.1 c.keychain c.with_account in
            let (h'', same) =
              (copied_iff image keyed.0 c.keychain c.tag ek' et').1 c.source reported c.is_source
                c.is_copied in
            (h, h', h'', same),
      )
