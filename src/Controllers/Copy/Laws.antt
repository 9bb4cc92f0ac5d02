-- ===== src/Controllers/Copy/Laws.antt =====
-- internal/controllers/component_controller.go: cycles and the order of the steps around
-- `CopyComponent`.
use wa8s.Prelude.{
  ◌≡◌, ◌≢◌, inl, inr, refl, eq_iff, String, true, Option, none, some, arith, is_some, Bool-cases,
  Option-cases,
}
use wa8s.Reconcile.{Read, Result-cases, Read-cases, Outcome, done, panics}
use wa8s.Apis.Meta.{Context}
use wa8s.Apis.Registries.{Repository, RepositoryReference, ServiceAccountReference}
use wa8s.Apis.Components.{ComponentReference, ComponentSpec}
use wa8s.Apis.Components.Laws.{ExactlyOne}
use wa8s.Trace.{add_span, detect_trace_cycle}
use wa8s.Controllers.{
  State, Externals, Key, RepositoryRead, synthesize_span, resolve_repository,
  default_read_repository, repository_key, gate, resolve_keychain, reflect_componentable_status,
  use_repository,
}
use wa8s.Controllers.Copy.{
  ComponentDuck, Resolution, component, not_component, component_not_found, resolution_error, Run,
  copy_component, copy_from, use_component, copy_component_ref, copy_ref, copy_source,
}

module _ {K : Type 0} (x : Externals K) where
  copy_component_at :
      (resolve : ComponentReference → Resolution) (uid : String) (spec : ComponentSpec)
      (st : State K) (k : K) (tag : String)
      → st.keychain ≡ some k
      → st.tag ≡ some tag
      → copy_component x resolve uid spec st ≡ copy_source x resolve uid spec st k tag
  unfolding copy_component
  copy_component_at resolve uid spec st k tag ek et = ground (arith, ek, et)

  copy_source_at :
      (resolve : ComponentReference → Resolution) (uid : String) (spec : ComponentSpec)
      (st : State K) (k : K) (tag : String) (ref : ComponentReference)
      → spec.oci ≡ none
      → spec.ref ≡ some ref
      → copy_source x resolve uid spec st k tag ≡ copy_ref x resolve uid st k tag ref
  unfolding copy_source
  copy_source_at resolve uid spec st k tag ref eo er = ground (arith, eo, er)

  copy_ref_at :
      (resolve : ComponentReference → Resolution) (uid : String) (st : State K) (k : K)
      (tag : String) (ref : ComponentReference) (c : ComponentDuck)
      → resolve ref ≡ component c
      → copy_ref x resolve uid st k tag ref ≡ copy_component_ref x uid st k tag c
  unfolding copy_ref
  copy_ref_at resolve uid st k tag ref c ec = ground (arith, ec)

  copy_from_lem :
      (st : State K) (k : K) (tag source : String)
      → let run = copy_from x st k tag source in
        (run.outcome ≢ panics) × (run.outcome ≡ done → is_some run.state.digest ≡ true)
  unfolding copy_from
  copy_from_lem st k tag source = ground arith

  use_component_lem :
      (st : State K) (k : K) (tag : String) (c : ComponentDuck)
      → let run = use_component x st k tag c in
        (run.outcome ≢ panics) × (run.outcome ≡ done → is_some run.state.digest ≡ true)
  unfolding use_component
  use_component_lem st k tag c = elim (Result-cases (x.new_digest c.image)) [
    | inl (source, e) ↦ ground (arith, eq_iff c.image "", e, copy_from_lem st k tag source)
    | inr (text, e) ↦ ground (arith, eq_iff c.image "", e)
  ]

  -- How a run ends: it does not panic, and a digest is stashed when there is no error.
  abbrev EndsWell : Run K → Type 0
  EndsWell run = (run.outcome ≢ panics) × (run.outcome ≡ done → is_some run.state.digest ≡ true)

  copy_component_ref_lem :
      (uid : String) (st : State K) (k : K) (tag : String) (c : ComponentDuck)
      → EndsWell (copy_component_ref x uid st k tag c)
  unfolding copy_component_ref
  copy_component_ref_lem uid st k tag c =
      let spans = add_span st.spans (synthesize_span x c.subject) in
      let st' = record st { spans = spans } in
      elim (Bool-cases (detect_trace_cycle uid spans).0) [
        | inl e ↦ rw e (ground arith)
        | inr e ↦ rw e (use_component_lem st' k tag c)
      ]

  copy_ref_lem :
      (resolve : ComponentReference → Resolution) (uid : String) (st : State K) (k : K)
      (tag : String) (ref : ComponentReference) (r : Resolution)
      → resolve ref ≡ r
      → EndsWell (copy_ref x resolve uid st k tag ref)
  unfolding copy_ref
  copy_ref_lem resolve uid st k tag ref (component c) e =
      rw (copy_ref_at resolve uid st k tag ref c e) (copy_component_ref_lem uid st k tag c)
  copy_ref_lem resolve uid st k tag ref not_component e = ground (arith, e)
  copy_ref_lem resolve uid st k tag ref component_not_found e = ground (arith, e)
  copy_ref_lem resolve uid st k tag ref (resolution_error m) e = ground (arith, e)

  copy_source_lem :
      (resolve : ComponentReference → Resolution) (uid : String) (spec : ComponentSpec)
      (st : State K) (k : K) (tag : String)
      → ExactlyOne (is_some spec.oci) (is_some spec.ref)
      → EndsWell (copy_source x resolve uid spec st k tag)
  unfolding copy_source
  copy_source_lem resolve uid spec st k tag one = elim (Option-cases spec.oci) [
    | inl eo ↦ elim (Option-cases spec.ref) [
      | inl er ↦ absurd (ground (arith, eo, er))
      | inr (ref, er) ↦
          rw (copy_source_at resolve uid spec st k tag ref eo er)
            (copy_ref_lem resolve uid st k tag ref (resolve ref) refl)
    ]
    | inr (oci, eo) ↦ elim (Result-cases (x.resolve_digest oci.image k)) [
      | inl (source, e) ↦ ground (arith, eo, e, copy_from_lem st k tag source)
      | inr (m, e) ↦ ground (arith, eo, e)
    ]
  ]

  -- How resolving a repository ends without an error: with a keychain and a tag.
  abbrev pub Stashes : State K × Outcome → Type 0
  Stashes end = end.1 ≡ done → (is_some end.0.keychain ≡ true) × (is_some end.0.tag ≡ true)

  use_repository_lem :
      (ctx : Context) (condition : String) (ref : RepositoryReference) (r : Repository)
      (st : State K)
      → Stashes (use_repository x ctx condition ref r st)
  unfolding use_repository
  use_repository_lem ctx condition ref r st h =
      let d = default_read_repository ctx ref r in
      elim (Result-cases (x.keychain_for_repo d)) [
        | inl (k, ek) ↦ elim (Result-cases (x.apply_template d.spec.template)) [
          | inl (tag, et) ↦ ground (arith, ek, et)
          | inr (m, et) ↦ absurd (ground (arith, ek, et))
        ]
        | inr (m, ek) ↦ absurd (ground (arith, ek))
      ]

  pub resolve_repository-Stashes :
      (ctx : Context) (get : Key → Read RepositoryRead) (condition namespace : String)
      (ref : RepositoryReference) (st : State K)
      → Stashes (resolve_repository x ctx get condition namespace ref st)
  unfolding resolve_repository
  resolve_repository-Stashes ctx get condition namespace ref st =
      elim (Read-cases (get (repository_key namespace ref))) [
        | inl (r, e) ↦ elim (Option-cases (gate "RepositoryNotReady" r.observed)) [
          | inl g ↦
              let same : resolve_repository x ctx get condition namespace ref st
                  ≡ use_repository x ctx condition ref r.repository st =
                ground (arith, e, g) in
              rw same (use_repository_lem ctx condition ref r.repository st)
          | inr (stop, g) ↦ λ h. absurd (ground (arith, e, g))
        ]
        | inr (inl e) ↦ λ h. absurd (ground (arith, e))
        | inr (inr (m, e)) ↦ λ h. absurd (ground (arith, e))
      ]

  pub resolve_keychain-keeps :
      (condition : String) (account : Option ServiceAccountReference) (st : State K)
      → let st' = (resolve_keychain x condition account st).0 in
        (is_some st.keychain ≡ true → is_some st'.keychain ≡ true) × (st'.tag ≡ st.tag)
  unfolding resolve_keychain
  resolve_keychain-keeps condition none st = ground arith
  resolve_keychain-keeps condition (some ref) st = ground arith

  -- For a component with exactly one source the steps of its reconciler fit together: when the
  -- repository is resolved without an error, the copy does not panic, and when the copy ends
  -- without an error, reflecting the status does not panic either.
  pub component_steps-fit :
      (ctx : Context) (get : Key → Read RepositoryRead) (namespace uid : String)
      (repository : RepositoryReference) (account : Option ServiceAccountReference)
      (resolve : ComponentReference → Resolution) (spec : ComponentSpec) (st : State K)
      → ExactlyOne (is_some spec.oci) (is_some spec.ref)
      → let resolved = resolve_repository x ctx get "RepositoryReady" namespace repository st in
        let keyed = resolve_keychain x "ComponentCopied" account resolved.0 in
        let run = copy_component x resolve uid spec keyed.0 in
        resolved.1 ≡ done
        → (run.outcome ≢ panics)
          × (run.outcome ≡ done → (reflect_componentable_status run.state).1 ≡ done)
  unfolding reflect_componentable_status
  component_steps-fit ctx get namespace uid repository account resolve spec st one h =
      let resolved = resolve_repository x ctx get "RepositoryReady" namespace repository st in
      let keyed = (resolve_keychain x "ComponentCopied" account resolved.0).0 in
      let (k, t) = resolve_repository-Stashes ctx get "RepositoryReady" namespace repository st h in
      let (keep, same) = resolve_keychain-keeps "ComponentCopied" account resolved.0 in
      elim (Option-cases keyed.keychain) [
        | inl ek ↦ absurd (ground (arith, keep k, ek))
        | inr (key, ek) ↦ elim (Option-cases keyed.tag) [
          | inl et ↦ absurd (ground (arith, t, same, et))
          | inr (tag, et) ↦
              let (calm, stashed) = copy_source_lem resolve uid spec keyed key tag one in
              rw (copy_component_at resolve uid spec keyed key tag ek et)
                (calm, λ d. ground (arith, stashed d))
        ]
      ]
