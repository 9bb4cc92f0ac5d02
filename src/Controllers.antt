-- ===== src/Controllers.antt =====
-- controllers/duck_controller.go: the sub reconcilers that every component-like resource shares.
-- A sub reconciler is a function from what the resource and the stashers hold to what they hold
-- after it, and how it ends. Keychains, the registry and templates are not part of this model: they
-- are the parameter `Externals`, and a keychain is any type `K`.
pub mod Child
pub mod Images
pub mod Copy
pub mod Containers
pub mod Registries
pub mod Pushing
pub mod Composition
pub mod Config
mod Examples
use Prim.Native.String
use wa8s.Prelude.{
  ℕ, String, Bool, true, false, not, eqb, List, [], ◌∷◌, ◌++◌, Option, none, some, if◌then◌else◌,
  ◌==◌,
}
use wa8s.Reconcile.{
  Mark, ConditionStatus, is_true, is_false, is_unknown, Outcome, done, fails, panics, Failure,
  durable, generation_mismatch, transient, failed, Observed, Read, found, not_found, read_error,
  Result, ok, err, marked,
}
use wa8s.Apis.Meta.{Context, ObjectMeta}
use wa8s.Apis.Registries.{
  ServiceAccountReference, RepositoryReference, Repository, default_repository,
  default_cluster_repository,
}
use wa8s.Trace.{Origin, ComponentSpan, Trace, span}

-- `WIT`: what a component imports and exports.
pub record Wit : Type 0 where
  pub imports : List String
  pub exports : List String

-- The status of the resource, and after it the stashed values.
pub record State (K : Type 0) : Type 0 where
  pub marks : List Mark
  pub image : String
  pub trace : Trace
  pub wit : Option Wit
  pub component : Option String
  pub config : Option Wit
  pub spans : Trace
  pub digest : Option String
  pub tag : Option String
  pub keychain : Option K
  pub remote_image : Option String

-- An error of `KeychainForServiceAccountRef`: what was not found, or any other one.
pub data KeychainError : Type 0 where
  missing : String → KeychainError
  other : String → KeychainError

-- The calls of other packages: `registry.KeychainForRepo`, `registry.KeychainForServiceAccountRef`,
-- `authn.NewMultiKeychain`, `registry.ApplyTemplate` for the resource, `registry.Push`,
-- `registry.Copy`, `registry.PullConfig` and `registry.ResolveDigest`, `name.NewDigest` with and
-- without strict validation, and its `DigestStr`.
pub record Externals (K : Type 0) : Type 0 where
  pub keychain_for_repo : Repository → Result K
  pub keychain_for_account : ServiceAccountReference → Result K
  pub account_error : String → KeychainError
  pub multi : K → K → K
  pub apply_template : String → Result String
  pub push : String → String → K → Result (String × Wit)
  pub copy : String → String → K → Result String
  pub pull_config : String → K → Result Wit
  pub resolve_digest : String → K → Result String
  pub new_digest : String → Result String
  pub new_strict_digest : String → Result String
  pub digest_str : String → String

pub data Key : Type 0 where
  cluster_key : String → Key
  namespaced_key : String → String → Key

-- A repository as it is read.
pub record RepositoryRead : Type 0 where
  pub observed : Observed
  pub repository : Repository

abbrev pub mark : {K : Type 0} → State K → String → ConditionStatus → String → State K
mark st condition status reason = record st { marks = marked st.marks condition status reason }

-- What keeps a resource from using another one that it has read: the mark, and the error.
abbrev pub gate : String → Observed → Option (ConditionStatus × String × Failure)
gate not_ready o =
    if not (eqb o.generation o.observed_generation)
    then some (is_unknown, "Blocked", generation_mismatch)
    else if not o.ready_is_true
    then some (if o.ready_is_false then is_false else is_unknown, not_ready, durable)
    else none

-- The name a repository is read under.
abbrev pub repository_key : String → RepositoryReference → Key
repository_key namespace ref =
    if ref.kind == "ClusterRepository"
    then cluster_key ref.name
    else namespaced_key namespace ref.name

abbrev pub default_read_repository : Context → RepositoryReference → Repository → Repository
default_read_repository ctx ref r =
    if ref.kind == "ClusterRepository"
    then default_cluster_repository ctx r
    else default_repository ctx r

-- The keychain of a repository with the stashed one, which comes second.
abbrev pub add_keychain : {K : Type 0} → Externals K → State K → K → State K
add_keychain x st k = record st {
  keychain = elim st.keychain [ none ↦ some k | some kc ↦ some (x.multi k kc) ];
}

unfoldable pub use_repository :
    {K : Type 0}
    → Externals K
    → Context
    → String
    → RepositoryReference
    → Repository
    → State K
    → State K × Outcome
use_repository x ctx condition ref repository st =
    let r = default_read_repository ctx ref repository in
    elim (x.keychain_for_repo r) [
      | err e ↦ (st, fails (transient e))
      | ok k ↦
          let st' = add_keychain x st k in
          elim (x.apply_template r.spec.template) [
            | err e ↦ (st', fails (failed e))
            | ok tag ↦ (mark (record st' { tag = some tag }) condition is_true "Ready", done)
          ]
    ]

-- `ResolveRepository(conditionType)` for a resource of a namespace with its reference.
unfoldable pub resolve_repository :
    {K : Type 0}
    → Externals K
    → Context
    → (Key → Read RepositoryRead)
    → String
    → String
    → RepositoryReference
    → State K
    → State K × Outcome
unfolding use_repository
resolve_repository x ctx get condition namespace ref st =
    elim (get (repository_key namespace ref)) [
      | not_found ↦ (mark st condition is_false "RepositoryNotFound", fails durable)
      | read_error e ↦ (st, fails (failed e))
      | found r ↦ elim (gate "RepositoryNotReady" r.observed) [
        | some stop ↦ (mark st condition stop.0 stop.1, fails stop.2)
        | none ↦ use_repository x ctx condition ref r.repository st
      ]
    ]

-- `ResolveKeychain(conditionType)`; the reference of some resources is nil.
unfoldable pub resolve_keychain :
    {K : Type 0}
    → Externals K
    → String
    → Option ServiceAccountReference
    → State K
    → State K × Outcome
resolve_keychain x condition none st = (st, done)
resolve_keychain x condition (some ref) st = elim (x.keychain_for_account ref) [
  | ok k ↦ (add_keychain x st k, done)
  | err e ↦ elim (x.account_error e) [
    | missing kind ↦ (mark st condition is_false (String.◌++◌ kind "NotFound"), fails durable)
    | other text ↦ (st, fails (failed text))
  ]
]

push_with : {K : Type 0} → Externals K → String → State K → String → String → K → State K × Outcome
push_with x condition st component tag keychain = elim (x.push tag component keychain) [
  | err e ↦ (mark st condition is_false "PushFailed", fails (failed e))
  | ok (digest, config) ↦ (
    mark (record st { digest = some digest; config = some config }) condition is_true "Pushed",
    done,
  )
]

-- `PushComponent(conditionType)`
unfoldable pub push_component : {K : Type 0} → Externals K → String → State K → State K × Outcome
unfolding push_with
push_component x condition st = elim st.component [
  | none ↦ (st, panics)
  | some component ↦ elim st.tag [
    | none ↦ (st, panics)
    | some tag ↦ elim st.keychain [
      | none ↦ (st, panics)
      | some keychain ↦ push_with x condition st component tag keychain
    ]
  ]
]

-- `ReflectComponentableStatus`
unfoldable pub reflect_componentable_status : {K : Type 0} → State K → State K × Outcome
reflect_componentable_status st = elim st.digest [
  | none ↦ (st, panics)
  | some digest ↦ (record st { image = digest; trace = st.spans; wit = st.config }, done)
]

-- A resource that a span is made of. Its status is none if it does not convert to a component.
pub record Subject : Type 0 where
  pub uid : String
  pub group : String
  pub kind : String
  pub namespace : String
  pub name : String
  pub status : Option (String × Trace)

abbrev status_or_empty : Option (String × Trace) → String × Trace
status_or_empty none = ("", Trace.nil)
status_or_empty (some s) = s

-- `SynthesizeSpan`
unfoldable pub synthesize_span : {K : Type 0} → Externals K → Subject → ComponentSpan
synthesize_span x r =
    let (image, trace) = status_or_empty r.status in
    let digest : String = elim (x.new_digest image) [ ok d ↦ x.digest_str d | err e ↦ "" ] in
    span
      (record {
        digest = digest;
        uid = r.uid;
        group = r.group;
        kind = r.kind;
        namespace = r.namespace;
        name = r.name;
      })
      trace false
