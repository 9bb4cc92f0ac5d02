-- ===== src/Services/Credentials/Laws.antt =====
-- integrations/services/internal/controllers/services_webhook.go: the credential handlers one after
-- another, on a cluster.
use wa8s.Prelude.{
  ◌≡◌, ◌≢◌, ◌↔◌, ◌⊎◌, inl, inr, refl, sym, ◌∙◌, ◌++◌, Option-cases, String, List, [], ◌∷◌, Option,
  none, some, arith, eq_iff,
}
use wa8s.Reconcile.{Result, ok, err, Result-cases}
use wa8s.Services.Credentials.{
  Entries, Secret, Cluster, Json, unknown_secret, only, load_direct, load_secret,
  retrieve_credentials, update_credentials, fetch, publish,
}

only-some_iff : (ss : List Secret) (s : Secret) → (only ss ≡ some s) ↔ (ss ≡ s ∷ [])
unfolding only
only-some_iff [] s = ground arith
only-some_iff (x ∷ []) s = ground arith
only-some_iff (x ∷ y ∷ ss) s = ground arith

module _ {S : Type 0} (c : Cluster S) where
  -- A secret is loaded for an id exactly when it is the only one that the cache lists, or the cache
  -- does not list exactly one and it is the only one that the API lists: among several none is
  -- picked.
  pub load_secret-some_iff :
      (st : S) (id : String) (xs ys : List Secret) (s : Secret)
      → c.list st id ≡ ok xs
      → c.list_direct st id ≡ ok ys
      → (load_secret c st id ≡ ok (some s)) ↔ ((xs ≡ s ∷ []) ⊎ ((only xs ≡ none) × (ys ≡ s ∷ [])))
  unfolding load_secret load_direct
  load_secret-some_iff st id xs ys s e f =
      let direct : load_direct c st id ≡ ok (only ys) = rw (load_direct, f) refl in
      rw (load_secret, e) (ground (arith, direct, only-some_iff xs s, only-some_iff ys s))

  -- The API lists a secret with the new data where a successful update has changed nothing but these.
  abbrev pub KeepsUpdates : Type 0
  KeepsUpdates =
      (st st' : S) (id : String) (xs ys : List Secret) (s : Secret) (m : Entries)
      → c.list_direct st id ≡ ok (xs ++ (s ∷ ys))
      → c.update st (record s { data_ = m }) ≡ ok st'
      → c.list_direct st' id ≡ ok (xs ++ (record s { data_ = m } ∷ ys))

  -- For an id the cache of the informer has seen nothing yet, or it agrees with the API.
  abbrev pub IsSynced : S → String → Type 0
  IsSynced st id = (c.list st id ≡ ok []) ⊎ (c.list st id ≡ c.list_direct st id)

  load_secret-synced :
      (st : S) (id : String) → IsSynced st id → load_secret c st id ≡ load_direct c st id
  unfolding load_secret load_direct only
  load_secret-synced st id (inl nothing) = ground (arith, nothing)
  load_secret-synced st id (inr same) = elim (Result-cases (c.list_direct st id)) [
    | inl (ss, e) ↦ elim (Option-cases (only ss)) [
      | inl none_ ↦ ground (arith, same, e, none_)
      | inr (s, one) ↦ ground (arith, same, e, one)
    ]
    | inr (x, e) ↦ ground (arith, same, e)
  ]

  load_direct-some :
      (st : S) (id : String) (s : Secret)
      → load_direct c st id ≡ ok (some s)
      → c.list_direct st id ≡ ok (s ∷ [])
  unfolding load_direct
  load_direct-some st id s h = elim (Result-cases (c.list_direct st id)) [
    | inl (ss, e) ↦ ground (arith, e, h, only-some_iff ss s)
    | inr (x, e) ↦ absurd (ground (arith, e, h))
  ]

  -- A secret that was loaded and updated is loaded again with its new data.
  reloaded :
      (st st' : S) (id : String) (s : Secret) (m : Entries)
      → KeepsUpdates
      → IsSynced st id
      → IsSynced st' id
      → load_secret c st id ≡ ok (some s)
      → c.update st (record s { data_ = m }) ≡ ok st'
      → load_secret c st' id ≡ ok (some (record s { data_ = m }))
  unfolding load_direct only
  reloaded st st' id s m keeps before after loaded written =
      let listed = load_direct-some st id s (sym (load_secret-synced st id before) ∙ loaded) in
      let later = keeps st st' id [] [] s m listed written in
      load_secret-synced st' id after ∙ rw (load_direct, later) refl

  updated :
      (l : Result (Option Secret)) (f : Secret → Result S) (st' : S)
      → elim l [
        | err e ↦ err e
        | ok found ↦ elim found [ none ↦ err unknown_secret | some s ↦ f s ]
      ]
        ≡ ok st'
      → (s : Secret) × (l ≡ ok (some s)) × (f s ≡ ok st')
  updated (err e) f st' h = absurd (ground arith)
  updated (ok none) f st' h = absurd (ground arith)
  updated (ok (some s)) f st' h = (s, refl, h)

  update_credentials-retrieve :
      (st st' : S) (id : String) (m : Entries)
      → KeepsUpdates
      → IsSynced st id
      → IsSynced st' id
      → update_credentials c st id m ≡ ok st'
      → retrieve_credentials c st' id ≡ ok m
  unfolding update_credentials retrieve_credentials
  update_credentials-retrieve st st' id m keeps before after h =
      let (s, loaded, written) =
        updated (load_secret c st id) (λ s. c.update st (record s { data_ = m })) st' h in
      rw (retrieve_credentials, reloaded st st' id s m keeps before after loaded written) refl

  -- If the API lists updated secrets with their new data, and before and after the request the cache
  -- has seen no secret of the id or agrees with the API, credentials that are published with status
  -- 204 are what the next fetch of the same id answers, with status 200 and their encoding as the
  -- body, where the published text decodes and the credentials encode.
  pub publish-fetch :
      (json : Json) (st : S) (id text body : String) (m : Entries)
      → KeepsUpdates
      → IsSynced st id
      → IsSynced (publish c json id text st).1 id
      → json.decode text ≡ some m
      → json.encode m ≡ some body
      → (publish c json id text st).0.status ≡ 204
      → fetch c json id (publish c json id text st).1 ≡ record { status = 200; body = some body }
  unfolding publish fetch
  publish-fetch json st id text body m keeps before after d e h =
      elim (Result-cases (update_credentials c st id m)) [
        | inl (st', same) ↦
            let there : (publish c json id text st).1 ≡ st' =
              ground (arith, eq_iff id "", d, e, same, h) in
            let back =
              update_credentials-retrieve st st' id m keeps before (rw there at after) same in
            ground (arith, eq_iff id "", d, e, same, back)
        | inr (x, same) ↦ absurd (ground (arith, eq_iff id "", d, same))
      ]

  -- A request to publish or destroy that is not answered by 204 leaves the cluster as it is, and
  -- the answer is 400 exactly when the id is missing or the credentials do not decode.
  pub publish-refuses :
      (json : Json) (st : S) (id text : String)
      → ((publish c json id text st).0.status ≢ 204 → (publish c json id text st).1 ≡ st)
        × (((publish c json id text st).0.status ≡ 400) ↔ ((id ≡ "") ⊎ (json.decode text ≡ none)))
  unfolding publish
  publish-refuses json st id text = ground (arith, eq_iff id "")
