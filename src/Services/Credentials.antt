-- ===== src/Services/Credentials.antt =====
-- integrations/services/internal/controllers/services_webhook.go: the three handlers that a
-- lifecycle service calls, on the state of a cluster whose operations are a parameter.
pub mod Laws
use wa8s.Prelude.{ℕ, String, Bool, List, [], ◌∷◌, Option, none, some, if◌then◌else◌, ◌==◌}
use wa8s.Reconcile.{Result, ok, err}

-- The data of a secret, or credentials: the entries of a map.
abbrev pub Entries : Type 0
Entries = List (String × String)

pub record Secret : Type 0 where
  pub namespace : String
  pub name : String
  pub labels : Entries
  pub finalizers : List String
  pub data_ : Entries

-- What the code asks of the cluster: secrets with an id in the label
-- `services.wa8s.reconciler.io/id`, from the informer's cache and from the API; the update of a
-- secret; and a patch that clears one of its finalizers.
pub record Cluster (S : Type 0) : Type 0 where
  pub list : S → String → Result (List Secret)
  pub list_direct : S → String → Result (List Secret)
  pub update : S → Secret → Result S
  pub clear_finalizer : S → Secret → String → Result S

-- `encoding/json` on a map of strings; none is an error.
pub record Json : Type 0 where
  pub decode : String → Option Entries
  pub encode : Entries → Option String

pub record Response : Type 0 where
  pub status : ℕ
  pub body : Option String

abbrev pub unknown_secret : String
unknown_secret = "unknown secret"

abbrev pub credential_finalizer : String
credential_finalizer = "services.wa8s.reconciler.io/finalizer"

abbrev pub only_status : ℕ → Response
only_status n = record { status = n; body = none }

unfoldable pub only : List Secret → Option Secret
only (s ∷ []) = some s
only _ = none

module _ {S : Type 0} (c : Cluster S) where
  unfoldable pub load_direct : S → String → Result (Option Secret)
  load_direct st id = elim (c.list_direct st id) [ err e ↦ err e | ok ss ↦ ok (only ss) ]

  -- The second listing overwrites the first.
  unfoldable pub load_secret : S → String → Result (Option Secret)
  unfolding load_direct
  load_secret st id = elim (c.list st id) [
    | err e ↦ err e
    | ok ss ↦ elim (only ss) [ some s ↦ ok (some s) | none ↦ load_direct st id ]
  ]

  unfoldable pub retrieve_credentials : S → String → Result Entries
  retrieve_credentials st id = elim (load_secret st id) [
    | err e ↦ err e
    | ok found ↦ elim found [ none ↦ err unknown_secret | some s ↦ ok s.data_ ]
  ]

  unfoldable pub update_credentials : S → String → Entries → Result S
  update_credentials st id creds = elim (load_secret st id) [
    | err e ↦ err e
    | ok found ↦ elim found [
      | none ↦ err unknown_secret
      | some s ↦ c.update st (record s { data_ = creds })
    ]
  ]

  unfoldable pub delete_credentials : S → String → Result S
  delete_credentials st id = elim (load_secret st id) [
    | err e ↦ err e
    | ok found ↦ elim found [ none ↦ ok st | some s ↦ c.clear_finalizer st s credential_finalizer ]
  ]

  -- The handlers take the values of the headers `service-id` and `service-credentials`, of which a
  -- missing one is empty.
  unfoldable pub fetch : Json → String → S → Response
  fetch json id st = if id == "" then only_status 400 else elim (retrieve_credentials st id) [
    | err e ↦ only_status 500
    | ok creds ↦ elim (json.encode creds) [
      | none ↦ only_status 500
      | some text ↦ record { status = 200; body = some text }
    ]
  ]

  unfoldable pub publish : Json → String → String → S → Response × S
  publish json id credentials st =
      if id == "" then (only_status 400, st) else elim (json.decode credentials) [
        | none ↦ (only_status 400, st)
        | some creds ↦ elim (update_credentials st id creds) [
          | err e ↦ (only_status 500, st)
          | ok st' ↦ (only_status 204, st')
        ]
      ]

  unfoldable pub destroy : String → S → Response × S
  destroy id st = if id == "" then (only_status 400, st) else elim (delete_credentials st id) [
    | err e ↦ (if e == unknown_secret then only_status 204 else only_status 500, st)
    | ok st' ↦ (only_status 204, st')
  ]
