-- ===== src/Controllers/Composition/Resolving/Steps.antt =====
-- internal/controllers/composition_controller.go: how the steps of the reconciler fit.
use wa8s.Prelude.{
  ◌≡◌, ◌≢◌, inl, inr, refl, sym, ap, ◌∙◌, String, true, not, ◌&&◌, List, [], ◌∷◌, ◌++◌, Option,
  none, some, is_some, arith, Option-cases, if◌then◌else◌, ◌==◌, Bool-cases,
}
use mathlib.Core.Path.{subst}
use wa8s.Reconcile.{Mark, Outcome, done, panics, Result, ok, err}
use wa8s.Apis.Meta.{Context}
use wa8s.Apis.Registries.{RepositoryReference}
use wa8s.Apis.Components.Composition.{
  GenericCompositionSpec, Dependencies, CompositionDependency, spec, cons,
  default_generic_composition_spec,
}
use wa8s.Controllers.{State, resolve_repository, push_component, reflect_componentable_status}
use wa8s.Controllers.Pushing.{push_component-lem}
use wa8s.Controllers.Copy.Laws.{resolve_repository-Stashes}
use wa8s.Controllers.Composition.Resolving.{
  ResolvedComponent, Composing, Outside, or_nil, resolve_dependencies, composed, compose_components,
}
use wa8s.Controllers.Composition.Resolving.Laws.{names, components, resolve_dependencies-names}

module _ {K : Type 0} (w : Outside K) where
  resolved_some :
      (rs : Option (List ResolvedComponent)) (before : List String) (d : CompositionDependency)
      (ds : Dependencies)
      → names (or_nil rs) ≡ before ++ components (cons d ds)
      → is_some rs ≡ true
  unfolding names components
  resolved_some (some rs) before d ds h = refl
  resolved_some none [] d ds h = absurd (cc)
  resolved_some none (b ∷ before) d ds h = absurd (cc)

  -- What composing leaves: a component, and the tag and the keychain as they were.
  abbrev Composes : State K → Composing K × Outcome → Type 0
  Composes st q =
      (q.1 ≢ panics)
      × (q.1 ≡ done → is_some q.0.state.component ≡ true)
      × (q.0.state.tag ≡ st.tag)
      × (q.0.state.keychain ≡ st.keychain)

  composed-Composes : (st : Composing K) (r : Result String) → Composes st.state (composed w st r)
  composed-Composes st (ok bytes) = (λ h. cc, λ h. refl, refl, refl)
  composed-Composes st (err e) = (λ h. cc, λ h. absurd (cc), refl, refl)

  compose_components-Composes :
      (ctx : Context) (given : GenericCompositionSpec) (st : Composing K)
      → is_some st.resolved ≡ true
      → Composes st.state (compose_components w (default_generic_composition_spec ctx given) st)
  unfolding compose_components default_generic_composition_spec
  compose_components-Composes ctx (spec wac plug ds) st h =
      let defaulted = default_generic_composition_spec ctx (spec wac plug ds) in
      elim (Option-cases st.resolved) [
        | inl e ↦ absurd (ground (arith, h, e))
        | inr (rs, er) ↦
            let plugs = λ (b : (if not plug && wac == "" then true else plug) ≡ true).
              let same : compose_components w defaulted st ≡ composed w st (w.wac_plug rs) =
                ground (arith, er, b) in
              subst (λ (q : Composing K × Outcome). Composes st.state q) (sym same)
                (composed-Composes st (w.wac_plug rs)) in
            elim (Bool-cases plug) [
              | inl p ↦ plugs (rw p refl)
              | inr p ↦ elim (Bool-cases (wac == "")) [
                | inl e ↦ plugs (rw (p, e) refl)
                | inr e ↦
                    let same : compose_components w defaulted st
                        ≡ composed w st (w.wac_compose wac rs) =
                      ground (arith, er, p, e) in
                    subst (λ (q : Composing K × Outcome). Composes st.state q) (sym same)
                      (composed-Composes st (w.wac_compose wac rs))
              ]
            ]
      ]

  -- The steps of the reconciler of compositions fit together: for a defaulted composition with a
  -- dependency, when the dependencies and the repository are resolved without an error, and whatever
  -- the step of the child component adds to the conditions, composing does not panic, pushing does
  -- not panic either once composing ends without an error, and neither does reflecting the status
  -- once the component is pushed.
  pub composition_steps-fit :
      (ctx : Context) (given : GenericCompositionSpec) (d : CompositionDependency)
      (ds : Dependencies) (namespace : String) (repository : RepositoryReference) (st : Composing K)
      (marks : List Mark)
      → let resolved = resolve_dependencies w (cons d ds) st in
        let stored =
          resolve_repository w.externals w.ctx w.get_repository "RepositoryReady" namespace
            repository resolved.0.state in
        let made =
          compose_components w
            (default_generic_composition_spec ctx given)
            (record resolved.0 { state = record stored.0 { marks = marks } }) in
        let pushed = push_component w.externals "ComponentPushed" made.0.state in
        resolved.1 ≡ done
        → stored.1 ≡ done
        → (made.1 ≢ panics)
          × (made.1 ≡ done
              → (pushed.1 ≢ panics)
                × (pushed.1 ≡ done → (reflect_componentable_status pushed.0).1 ≡ done))
  composition_steps-fit ctx given d ds namespace repository st marks h r =
      let resolved = resolve_dependencies w (cons d ds) st in
      let stored =
        resolve_repository w.externals w.ctx w.get_repository "RepositoryReady" namespace repository
          resolved.0.state in
      let composing : Composing K = record resolved.0 {
        state = record stored.0 { marks = marks };
      } in
      let made = compose_components w (default_generic_composition_spec ctx given) composing in
      let there =
        resolved_some resolved.0.resolved (names (or_nil st.resolved)) d ds
          (resolve_dependencies-names w (cons d ds) st h) in
      let (k, t) =
        resolve_repository-Stashes w.externals w.ctx w.get_repository "RepositoryReady" namespace
          repository resolved.0.state r in
      let (calm, makes, same_t, same_k) = compose_components-Composes ctx given composing there in
      (
        calm,
        λ e.
            push_component-lem w.externals "ComponentPushed" made.0.state (makes e)
              (ap is_some same_t ∙ t) (ap is_some same_k ∙ k),
      )
