-- ===== src/Controllers/Images/Base.antt =====
-- controllers/duck_controller.go: what `ResolveImage` leaves in the stashers.
use wa8s.Prelude.{◌≡◌, inl, inr, refl, String, true, is_some, arith, Bool-cases, Option-cases}
use wa8s.Reconcile.{Outcome, done, Read-cases}
use wa8s.Apis.Registries.{RepositoryReference, Repository}
use wa8s.Apis.Registries.Image.{ImageReference}
use wa8s.Trace.{add_span, detect_trace_cycle}
use wa8s.Controllers.{State, Externals, gate, repository_key, synthesize_span}
use wa8s.Controllers.Images.{
  Request, ImageRead, with_repository, with_image, use_image, resolve_image, default_read_image,
  image_key,
}

module _ {K : Type 0} (x : Externals K) where
  -- How resolving an image ends: the component stays, and there is an image when there is no error.
  abbrev pub Based : State K → State K × Outcome → Type 0
  Based st q = (q.0.component ≡ st.component) × (q.1 ≡ done → is_some q.0.remote_image ≡ true)

  module _ (q : Request) where
    with_repository-Based :
        (image : String) (ref : RepositoryReference) (r : Repository) (st : State K)
        → Based st (with_repository x q image ref r st)
    unfolding with_repository
    with_repository-Based image ref r st = ground arith

    with_image-Based :
        (image : String) (ref : RepositoryReference) (st : State K)
        → Based st (with_image x q image ref st)
    unfolding with_image
    with_image-Based image ref st =
        elim (Read-cases (q.get_repository (repository_key q.namespace ref))) [
          | inl (r, e) ↦ elim (Option-cases (gate "RepositoryNotReady" r.observed)) [
            | inl g ↦
                let same : with_image x q image ref st
                    ≡ with_repository x q image ref r.repository st =
                  ground (arith, e, g) in
                rw same (with_repository-Based image ref r.repository st)
            | inr (stop, g) ↦ ground (arith, e, g)
          ]
          | inr (inl e) ↦ ground (arith, e)
          | inr (inr (m, e)) ↦ ground (arith, e)
        ]

    use_image-Based :
        (ref : ImageReference) (st : State K) (i : ImageRead) → Based st (use_image x q ref st i)
    unfolding use_image
    use_image-Based ref st i =
        let spans = add_span st.spans (synthesize_span x i.subject) in
        elim (Bool-cases (detect_trace_cycle q.uid spans).0) [
          | inl e ↦ rw e (refl, λ h. absurd (cc))
          | inr e ↦ elim (Option-cases (gate "ImageNotReady" i.observed)) [
            | inl g ↦
                rw (e, g)
                  (with_image-Based i.status_image
                    (default_read_image q.ctx ref i.image).spec.repository_ref
                    (record st { spans = spans }))
            | inr (stop, g) ↦ rw (e, g) (refl, λ h. absurd (cc))
          ]
        ]

    pub resolve_image-Based :
        (ref : ImageReference) (st : State K) → Based st (resolve_image x q ref st)
    unfolding resolve_image
    resolve_image-Based ref st = elim (Read-cases (q.get_image (image_key q.namespace ref))) [
      | inl (i, e) ↦
          let same : resolve_image x q ref st ≡ use_image x q ref st i = ground (arith, e) in
          rw same (use_image-Based ref st i)
      | inr (inl e) ↦ ground (arith, e)
      | inr (inr (m, e)) ↦ ground (arith, e)
    ]
