-- ===== src/Controllers/Images.antt =====
-- controllers/duck_controller.go: `ResolveImage`.
pub mod Laws
pub mod Base
use wa8s.Prelude.{String, Bool, true, false, List, [], ◌∷◌, Option, none, some, if◌then◌else◌, ◌==◌}
use wa8s.Reconcile.{
  is_true, is_false, Outcome, done, fails, durable, transient, failed, Observed, Read, found,
  not_found, read_error, Result, ok, err,
}
use wa8s.Apis.Meta.{Context}
use wa8s.Apis.Registries.{Repository, RepositoryReference}
use wa8s.Apis.Registries.Image.{ImageReference, Image, default_image, default_cluster_image}
use wa8s.Trace.{Trace, add_span, detect_trace_cycle}
use wa8s.Controllers.{
  State, Externals, Key, cluster_key, namespaced_key, RepositoryRead, Subject, mark, gate,
  repository_key, default_read_repository, add_keychain, synthesize_span,
}

-- An image as it is read, with the image of its status.
pub record ImageRead : Type 0 where
  pub subject : Subject
  pub observed : Observed
  pub image : Image
  pub status_image : String

abbrev pub image_key : String → ImageReference → Key
image_key namespace ref =
    if ref.kind == "ClusterImage" then cluster_key ref.name else namespaced_key namespace ref.name

abbrev pub default_read_image : Context → ImageReference → Image → Image
default_read_image ctx ref i =
    if ref.kind == "ClusterImage" then default_cluster_image ctx i else default_image ctx i

-- The resource that is reconciled, and what is read for it.
pub record Request : Type 0 where
  pub ctx : Context
  pub condition : String
  pub uid : String
  pub namespace : String
  pub get_image : Key → Read ImageRead
  pub get_repository : Key → Read RepositoryRead

module _ {K : Type 0} (x : Externals K) (q : Request) where
  -- The keychain of the image's repository, and the digest of the image.
  with_repository : String → RepositoryReference → Repository → State K → State K × Outcome
  with_repository image ref repository st =
      elim (x.keychain_for_repo (default_read_repository q.ctx ref repository)) [
        | err e ↦ (st, fails (transient e))
        | ok k ↦
            let st' = add_keychain x st k in
            elim (x.new_strict_digest image) [
              | err e ↦ (st', fails (failed e))
              | ok d ↦
                  (mark (record st' { remote_image = some d }) q.condition is_true "Ready", done)
            ]
      ]

  with_image : String → RepositoryReference → State K → State K × Outcome
  unfolding with_repository
  with_image image ref st = elim (q.get_repository (repository_key q.namespace ref)) [
    | not_found ↦ (mark st q.condition is_false "RepositoryNotFound", fails durable)
    | read_error e ↦ (st, fails (failed e))
    | found r ↦ elim (gate "RepositoryNotReady" r.observed) [
      | some stop ↦ (mark st q.condition stop.0 stop.1, fails stop.2)
      | none ↦ with_repository image ref r.repository st
    ]
  ]

  -- The span comes before the image's own state.
  use_image : ImageReference → State K → ImageRead → State K × Outcome
  unfolding with_image
  use_image ref st i =
      let spans = add_span st.spans (synthesize_span x i.subject) in
      let st' = record st { spans = spans } in
      let (has_cycle, sanitized) = detect_trace_cycle q.uid spans in
      if has_cycle
      then (
        record (mark st' q.condition is_false "CycleDetected") { trace = sanitized },
        fails durable,
      )
      else elim (gate "ImageNotReady" i.observed) [
        | some stop ↦ (mark st' q.condition stop.0 stop.1, fails stop.2)
        | none ↦
            with_image i.status_image (default_read_image q.ctx ref i.image).spec.repository_ref st'
      ]

  -- `ResolveImage(conditionType)`, for a component-like resource.
  unfoldable pub resolve_image : ImageReference → State K → State K × Outcome
  unfolding use_image
  resolve_image ref st = elim (q.get_image (image_key q.namespace ref)) [
    | not_found ↦ (mark st q.condition is_false "ImageNotFound", fails durable)
    | read_error e ↦ (st, fails (failed e))
    | found i ↦ use_image ref st i
  ]
