-- ===== src/Services/Examples/Secrets.antt =====
-- A cluster of secrets that is a list, with the id of each.
use wa8s.Prelude.{
  ◌≡◌, inl, inr, refl, String, Bool, true, false, List, [], ◌∷◌, none, some, if◌then◌else◌, ◌==◌,
  arith, Bool-cases,
}
use wa8s.Reconcile.{Result, ok}
use wa8s.Services.Credentials.{
  Entries, Secret, Cluster, Json, only, load_secret, load_direct, update_credentials, fetch,
  publish,
}
use wa8s.Services.Credentials.Laws.{KeepsUpdates, IsSynced, publish-fetch}

abbrev secret : Secret
secret = record {
  namespace = "apps";
  name = "service-binding-uid-1";
  labels = ("services.wa8s.reconciler.io/id", "uid-1") ∷ [];
  finalizers = "services.wa8s.reconciler.io/finalizer" ∷ [];
  data_ = [];
}

-- One secret, with its id, which every update replaces.
abbrev State : Type 0
State = String × Secret

abbrev empty : Entries → Bool
empty [] = true
empty (e ∷ es) = false

abbrev select : State → String → Result (List Secret)
select (i, s) id = if i == id then ok (s ∷ []) else ok []

-- The cache has not seen the secret before it has data.
abbrev cached : State → String → Result (List Secret)
cached (i, s) id = if empty s.data_ then ok [] else select (i, s) id

abbrev cluster : Cluster State
cluster = record {
  list = cached;
  list_direct = select;
  update = λ st s. ok (st.0, s);
  clear_finalizer = λ st s name. ok (st.0, record s { finalizers = [] });
}

abbrev creds : Entries
creds = ("user", "app") ∷ []

abbrev json : Json
json = record {
  decode = λ text. if text == "{}" then some creds else none;
  encode = λ entries. some "{\"user\":\"app\"}";
}

abbrev stored : State
stored = ("uid-1", secret)

-- The cache has seen nothing before the update, and everything after it.
keeps_updates : KeepsUpdates cluster
keeps_updates st st' id [] [] s m listed written =
    let there : (st.0, record s { data_ = m }) ≡ st' = cc written in
    elim (Bool-cases (st.0 == id)) [
      | inl e ↦ ground (arith, e, there)
      | inr e ↦ absurd (ground (arith, e, listed))
    ]
keeps_updates st st' id [] (y ∷ ys) s m listed written = elim (Bool-cases (st.0 == id)) [
  | inl e ↦ absurd (ground (arith, e, listed))
  | inr e ↦ absurd (ground (arith, e, listed))
]
keeps_updates st st' id (x ∷ []) ys s m listed written = elim (Bool-cases (st.0 == id)) [
  | inl e ↦ absurd (ground (arith, e, listed))
  | inr e ↦ absurd (ground (arith, e, listed))
]
keeps_updates st st' id (x ∷ z ∷ xs) ys s m listed written = elim (Bool-cases (st.0 == id)) [
  | inl e ↦ absurd (ground (arith, e, listed))
  | inr e ↦ absurd (ground (arith, e, listed))
]

published : (publish cluster json "uid-1" "{}" stored).0.status ≡ 204
unfolding publish update_credentials load_secret only
published = refl

after : IsSynced cluster (publish cluster json "uid-1" "{}" stored).1 "uid-1"
unfolding publish update_credentials load_secret load_direct only
after = inr refl

publish-fetch_example :
    fetch cluster json "uid-1" (publish cluster json "uid-1" "{}" stored).1
    ≡ record { status = 200; body = some "{\"user\":\"app\"}" }
publish-fetch_example =
    publish-fetch cluster json stored "uid-1" "{}" "{\"user\":\"app\"}" creds keeps_updates
      (inl refl) after refl refl published
