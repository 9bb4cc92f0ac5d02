-- ===== src/Controllers/Composition/Resolving.antt =====
-- internal/controllers/composition_controller.go: `ResolveDependencies`, `ComposeComponents` and
-- `ReflectDependenciesStatus`. `reconcilers.ForEach` runs over the items in their order and stops
-- at the first error.
pub mod Laws
pub mod Steps
use wa8s.Prelude.{
  String, Bool, true, false, not, List, [], ◌∷◌, ◌++◌, Option, none, some, if◌then◌else◌, ◌==◌,
}
use wa8s.Reconcile.{
  Outcome, done, fails, panics, halt, durable, failed, is_true, is_false, is_unknown, Observed,
  Read, Result, ok, err,
}
use wa8s.Apis.Meta.{Context}
use wa8s.Apis.Components.{ComponentReference, GenericComponentSpec, default_generic_component_spec}
use wa8s.Apis.Components.Composition.{
  GenericCompositionSpec, Dependencies, CompositionDependency, spec, nil, cons,
}
use wa8s.Trace.{Trace, add_span, detect_trace_cycle}
use wa8s.Controllers.{
  State, Externals, Wit, Key, RepositoryRead, Subject, mark, gate, synthesize_span,
  resolve_repository,
}
use wa8s.Controllers.Composition.{component_of, sources_of}

pub record ResolvedComponent : Type 0 where
  pub name : String
  pub image : String
  pub component : String
  pub wit : Wit

-- The state of the other sub reconcilers, and the stashed dependencies.
pub record Composing (K : Type 0) : Type 0 where
  pub state : State K
  pub resolved : Option (List ResolvedComponent)

-- A component as it is read.
pub record Member : Type 0 where
  pub subject : Subject
  pub observed : Observed
  pub generic : GenericComponentSpec
  pub image : String
  pub wit : Option Wit

pub data Resolution : Type 0 where
  member : Member → Resolution
  not_component : Resolution
  component_not_found : Resolution
  resolution_error : String → Resolution

-- What the composition's reconciler is given from outside; `for_member` has the template applied to
-- a member, `pull` is `registry.Pull`, and the last two are `components.WACPlug` and
-- `components.WACCompose`.
pub record Outside (K : Type 0) : Type 0 where
  pub ctx : Context
  pub uid : String
  pub resolve : ComponentReference → Resolution
  pub get_repository : Key → Read RepositoryRead
  pub externals : Externals K
  pub for_member : Member → Externals K
  pub pull : String → K → Result String
  pub wac_plug : List ResolvedComponent → Result String
  pub wac_compose : String → List ResolvedComponent → Result String

abbrev pub resolved_condition : String
resolved_condition = "DependenciesResolved"

abbrev pub or_nil : Option (List ResolvedComponent) → List ResolvedComponent
or_nil none = []
or_nil (some rs) = rs

module _ {K : Type 0} (w : Outside K) where
  -- The mark of the next composition's state, and a failure.
  abbrev failing : Composing K → State K → Outcome → Composing K × Outcome
  failing st s o = (record st { state = s }, o)

  -- A nil `WIT` is dereferenced.
  add_member : Composing K → String → String → String → Option Wit → Composing K × Outcome
  add_member st name image bytes none = (st, panics)
  add_member st name image bytes (some wit) = (
    record {
      state = mark st.state resolved_condition is_true "Resolved";
      resolved = some (
          or_nil st.resolved
          ++ (record { name = name; image = image; component = bytes; wit = wit } ∷ []));
    },
    done,
  )

  pull_member : String → Member → Composing K → K → Composing K × Outcome
  unfolding add_member
  pull_member name m st keychain = elim (w.externals.new_digest m.image) [
    | err e ↦ (st, fails (failed e))
    | ok image ↦ elim (w.pull image keychain) [
      | err e ↦ (st, fails (failed e))
      | ok bytes ↦ add_member st name image bytes m.wit
    ]
  ]

  -- The keychain of the member's repository alone: the stashed one is cleared first. Marks go to
  -- the member, of which nothing is kept.
  member_keychain : Member → State K → State K × Outcome
  member_keychain m s =
      let (s', o) =
        resolve_repository (w.for_member m) w.ctx w.get_repository resolved_condition
          m.subject.namespace (default_generic_component_spec m.generic).repository_ref
          (record s { keychain = none }) in
      (record s { keychain = s'.keychain; tag = s'.tag }, o)

  use_keychain : String → Member → Composing K → State K → Composing K × Outcome
  unfolding pull_member
  use_keychain name m st s = elim s.keychain [
    | none ↦ failing st s (fails (failed "keychain"))
    | some keychain ↦ pull_member name m (record st { state = s }) keychain
  ]

  after_keychain : String → Member → Composing K → State K → Outcome → Composing K × Outcome
  unfolding use_keychain
  after_keychain name m st s done = use_keychain name m st s
  after_keychain name m st s o = failing st s o

  ready_member : String → Member → Composing K → State K → Composing K × Outcome
  unfolding member_keychain after_keychain
  ready_member name m st s =
      if m.image == ""
      then failing st (mark s resolved_condition is_false "ImageMissing") (fails durable)
      else let (s', o) = member_keychain m s in after_keychain name m st s' o

  use_member : String → Member → Composing K → Composing K × Outcome
  unfolding ready_member
  use_member name m st =
      let spans = add_span st.state.spans (synthesize_span w.externals m.subject) in
      let s = record st.state { spans = spans } in
      let (has_cycle, sanitized) = detect_trace_cycle w.uid spans in
      if has_cycle
      then failing st
          (record (mark s resolved_condition is_false "CycleDetected") { trace = sanitized })
          (fails durable)
      else elim (gate "NotReady" m.observed) [
        | some stop ↦ failing st (mark s resolved_condition stop.0 stop.1) (fails stop.2)
        | none ↦ ready_member name m st s
      ]

  -- `ResolveDependency`, `Sync`; a nil `Ref` is dereferenced.
  unfoldable pub resolve_dependency : CompositionDependency → Composing K → Composing K × Outcome
  unfolding use_member
  resolve_dependency d st = elim (sources_of d).ref [
    | none ↦ (st, panics)
    | some ref ↦ elim (w.resolve ref) [
      | member m ↦ use_member (component_of d) m st
      | not_component ↦
          failing st (mark st.state resolved_condition is_false "NotComponent") (fails halt)
      | component_not_found ↦
          failing st (mark st.state resolved_condition is_false "ComponentNotFound") (fails durable)
      | resolution_error e ↦ (st, fails (failed e))
    ]
  ]

  abbrev continue :
      Composing K × Outcome → (Composing K → Composing K × Outcome) → Composing K × Outcome
  continue (st, done) k = k st
  continue (st, o) k = (st, o)

  -- `ResolveDependencies`
  unfoldable pub resolve_dependencies : Dependencies → Composing K → Composing K × Outcome
  resolve_dependencies nil st = (st, done)
  resolve_dependencies (cons d ds) st =
      continue (resolve_dependency d st) (λ st'. resolve_dependencies ds st')

  abbrev composed : Composing K → Result String → Composing K × Outcome
  composed st (err e) = (st, fails (failed e))
  composed st (ok bytes) = (record st { state = record st.state { component = some bytes } }, done)

  -- `ComposeComponents`: without a plug and a script it marks and goes on.
  unfoldable pub compose_components : GenericCompositionSpec → Composing K → Composing K × Outcome
  compose_components (spec wac plug ds) st = elim st.resolved [
    | none ↦ (st, panics)
    | some rs ↦
        if plug
        then composed st (w.wac_plug rs)
        else if not (wac == "")
        then composed st (w.wac_compose wac rs)
        else (record st { state = mark st.state "ComponentPushed" is_false "Invalid" }, done)
  ]

pub record DependencyStatus : Type 0 where
  pub component : String
  pub image : String
  pub wit : Wit

statuses : List ResolvedComponent → List DependencyStatus
statuses [] = []
statuses (r ∷ rs) = record { component = r.name; image = r.image; wit = r.wit } ∷ statuses rs

-- `ReflectDependenciesStatus`: the new dependencies of the status.
unfoldable pub reflect_dependencies_status : {K : Type 0} → Composing K → List DependencyStatus
unfolding statuses
reflect_dependencies_status st = statuses (or_nil st.resolved)
