-- ===== src/Controllers/Containers/Laws.antt =====
-- internal/controllers/componentcontainerimage_controller.go: the steps of the reconciler fit.
use wa8s.Prelude.{
  ◌≡◌, ◌≢◌, inl, inr, refl, String, true, none, is_some, arith, Bool-cases, Option-cases, ◌∙◌, ap,
  ◌==◌,
}
use wa8s.Reconcile.{Outcome, done, fails, panics, Read, Read-cases}
use wa8s.Apis.Meta.{Context}
use wa8s.Apis.Registries.{RepositoryReference, Repository}
use wa8s.Apis.Registries.Image.{ImageReference}
use wa8s.Apis.Components.{ComponentReference}
use wa8s.Trace.{add_span, detect_trace_cycle}
use wa8s.Controllers.{
  State, Externals, Key, RepositoryRead, gate, repository_key, use_repository, resolve_repository,
  reflect_componentable_status, synthesize_span,
}
use wa8s.Controllers.Copy.Laws.{resolve_repository-Stashes}
use wa8s.Controllers.Images.{Request, resolve_image}
use wa8s.Controllers.Images.Base.{resolve_image-Based}
use wa8s.Controllers.Composition.Resolving.{
  Member, Resolution, member, not_component, component_not_found, resolution_error,
}
use wa8s.Controllers.Containers.{
  Outside, pull_component, component_keychain, use_keychain, after_keychain, ready_component,
  use_component, resolve_component, append_with, append_component,
}

module _ {K : Type 0} (w : Outside K) where
  -- When a step of the component ends without an error, the component is stashed and no keychain.
  abbrev Pulled : State K × Outcome → Type 0
  Pulled (s, o) = o ≡ done → (is_some s.component ≡ true) × (s.keychain ≡ none)

  use_keychain-Pulled : (m : Member) (s : State K) → Pulled (use_keychain w m s)
  unfolding use_keychain pull_component
  use_keychain-Pulled m s = ground arith

  after_keychain-Pulled : (m : Member) (q : State K × Outcome) → Pulled (after_keychain w m q)
  unfolding after_keychain
  after_keychain-Pulled m (s, done) = use_keychain-Pulled m s
  after_keychain-Pulled m (s, fails e) = λ h. absurd (cc)
  after_keychain-Pulled m (s, panics) = λ h. absurd (cc)

  ready_component-Pulled : (m : Member) (s : State K) → Pulled (ready_component w m s)
  unfolding ready_component
  ready_component-Pulled m s =
      let k = after_keychain-Pulled m (component_keychain w m s) in
      elim (Bool-cases (m.image == "")) [ inl e ↦ λ h. absurd (ground (arith, e)) | inr e ↦ rw e k ]

  use_component-Pulled : (m : Member) (s : State K) → Pulled (use_component w m s)
  unfolding use_component
  use_component-Pulled m s =
      let spans = add_span s.spans (synthesize_span w.externals m.subject) in
      elim (Bool-cases (detect_trace_cycle w.uid spans).0) [
        | inl e ↦ rw e (λ h. absurd (cc))
        | inr e ↦ elim (Option-cases (gate "NotReady" m.observed)) [
          | inl g ↦ rw (e, g) (ready_component-Pulled m (record s { spans = spans }))
          | inr (stop, g) ↦ rw (e, g) (λ h. absurd (cc))
        ]
      ]

  resolved-Pulled :
      (ref : ComponentReference) (st : State K) (r : Resolution)
      → w.resolve ref ≡ r
      → Pulled (resolve_component w ref st)
  unfolding resolve_component
  resolved-Pulled ref st (member m) e = rw (e, resolve_component) (use_component-Pulled m st)
  resolved-Pulled ref st not_component e = rw (e, resolve_component) (λ h. absurd (cc))
  resolved-Pulled ref st component_not_found e = rw (e, resolve_component) (λ h. absurd (cc))
  resolved-Pulled ref st (resolution_error t) e = rw (e, resolve_component) (λ h. absurd (cc))

  -- Once the component is pulled without an error, no keychain is stashed: that of the component's
  -- repository is not used for what follows.
  pub resolve_component-Pulled :
      (ref : ComponentReference) (st : State K) → Pulled (resolve_component w ref st)
  resolve_component-Pulled ref st = resolved-Pulled ref st (w.resolve ref) refl

module _ {K : Type 0} (x : Externals K) where
  -- Resolving a repository and an image keep what earlier steps have stashed.
  abbrev Keeps : State K → State K × Outcome → Type 0
  Keeps st q = (q.0.component ≡ st.component) × (q.0.remote_image ≡ st.remote_image)

  use_repository-Keeps :
      (ctx : Context) (condition : String) (ref : RepositoryReference) (r : Repository)
      (st : State K)
      → Keeps st (use_repository x ctx condition ref r st)
  unfolding use_repository
  use_repository-Keeps ctx condition ref r st = ground arith

  resolve_repository-Keeps :
      (ctx : Context) (get : Key → Read RepositoryRead) (condition namespace : String)
      (ref : RepositoryReference) (st : State K)
      → Keeps st (resolve_repository x ctx get condition namespace ref st)
  unfolding resolve_repository
  resolve_repository-Keeps ctx get condition namespace ref st =
      elim (Read-cases (get (repository_key namespace ref))) [
        | inl (r, e) ↦ elim (Option-cases (gate "RepositoryNotReady" r.observed)) [
          | inl g ↦
              let same : resolve_repository x ctx get condition namespace ref st
                  ≡ use_repository x ctx condition ref r.repository st =
                ground (arith, e, g) in
              rw same (use_repository-Keeps ctx condition ref r.repository st)
          | inr (stop, g) ↦ ground (arith, e, g)
        ]
        | inr (inl e) ↦ ground (arith, e)
        | inr (inr (m, e)) ↦ ground (arith, e)
      ]

module _ {K : Type 0} (w : Outside K) where
  -- How the last calls end: there is no panic, and a digest when there is no error.
  abbrev EndsWell : State K × Outcome → Type 0
  EndsWell (s, o) = (o ≢ panics) × (o ≡ done → is_some s.digest ≡ true)

  append_with-EndsWell :
      (st : State K) (k : K) (tag component image : String)
      → EndsWell (append_with w st k tag component image)
  unfolding append_with
  append_with-EndsWell st k tag component image = ground arith

  append_component-EndsWell :
      (st : State K)
      → is_some st.keychain ≡ true
      → is_some st.tag ≡ true
      → is_some st.component ≡ true
      → is_some st.remote_image ≡ true
      → EndsWell (append_component w st)
  unfolding append_component
  append_component-EndsWell st k t c i = elim (Option-cases st.keychain) [
    | inl e ↦ absurd (ground (arith, k, e))
    | inr (keychain, ek) ↦ elim (Option-cases st.tag) [
      | inl e ↦ absurd (ground (arith, t, e))
      | inr (tag, et) ↦ elim (Option-cases st.component) [
        | inl e ↦ absurd (ground (arith, c, e))
        | inr (component, ec) ↦ elim (Option-cases st.remote_image) [
          | inl e ↦ absurd (ground (arith, i, e))
          | inr (image, ei) ↦
              let same : append_component w st ≡ append_with w st keychain tag component image =
                ground (arith, ek, et, ec, ei) in
              rw same (append_with-EndsWell st keychain tag component image)
        ]
      ]
    ]
  ]

  reflect_lem :
      (q : State K × Outcome)
      → EndsWell q
      → (q.1 ≢ panics) × (q.1 ≡ done → (reflect_componentable_status q.0).1 ≡ done)
  unfolding reflect_componentable_status
  reflect_lem q (calm, stashed) = (calm, λ h. ground (arith, stashed h))

  -- The steps of the reconciler of container images fit together: when the component, the base image
  -- and the repository are resolved without an error, appending the component does not panic, and
  -- when it ends without an error, reflecting the status does not panic either. Between the first
  -- two no keychain is stashed, so that of the component's repository is not used to append.
  pub container_image_steps-fit :
      (q : Request) (ref : ComponentReference) (base : ImageReference)
      (repository : RepositoryReference) (namespace : String) (st : State K)
      → let pulled = resolve_component w ref st in
        let based = resolve_image w.externals q base pulled.0 in
        let stored =
          resolve_repository w.externals w.ctx w.get_repository "RepositoryReady" namespace
            repository based.0 in
        let appended = append_component w stored.0 in
        pulled.1 ≡ done
        → based.1 ≡ done
        → stored.1 ≡ done
        → (pulled.0.keychain ≡ none)
          × (appended.1 ≢ panics)
          × (appended.1 ≡ done → (reflect_componentable_status appended.0).1 ≡ done)
  container_image_steps-fit q ref base repository namespace st p b s =
      let pulled = resolve_component w ref st in
      let based = resolve_image w.externals q base pulled.0 in
      let condition : String = "RepositoryReady" in
      let stored =
        resolve_repository w.externals w.ctx w.get_repository condition namespace repository
          based.0 in
      let (c, none_) = resolve_component-Pulled w ref st p in
      let (c1, i) = resolve_image-Based w.externals q base pulled.0 in
      let (c2, i2) =
        resolve_repository-Keeps w.externals w.ctx w.get_repository condition namespace repository
          based.0 in
      let (k, t) =
        resolve_repository-Stashes w.externals w.ctx w.get_repository condition namespace repository
          based.0 s in
      let (calm, reflects) =
        reflect_lem (append_component w stored.0) (
          append_component-EndsWell stored.0 k t (ap is_some (c2 ∙ c1) ∙ c)
            (ap is_some i2 ∙ i b)) in
      (none_, calm, reflects)
