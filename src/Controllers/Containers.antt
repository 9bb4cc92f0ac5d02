-- ===== src/Controllers/Containers.antt =====
-- internal/controllers/componentcontainerimage_controller.go: `ResolveComponent` and `AppendComponent`.
pub mod Laws
use wa8s.Prelude.{String, Bool, true, false, List, [], ◌∷◌, Option, none, some, if◌then◌else◌, ◌==◌}
use wa8s.Reconcile.{
  Outcome, done, fails, panics, halt, durable, failed, is_true, is_false, Read, Result, ok, err,
}
use wa8s.Apis.Meta.{Context}
use wa8s.Apis.Components.{ComponentReference, default_generic_component_spec}
use wa8s.Trace.{Trace, add_span, detect_trace_cycle}
use wa8s.Controllers.{
  State, Externals, Wit, Key, RepositoryRead, mark, gate, synthesize_span, resolve_repository,
}
use wa8s.Controllers.Composition.Resolving.{
  Member, Resolution, member, not_component, component_not_found, resolution_error,
}

-- What the reconciler is given from outside: `for_member` has the template applied to the component,
-- `pull` is `registry.Pull`, and `append` is `registry.AppendComponent` of a base image, a tag and a
-- component.
pub record Outside (K : Type 0) : Type 0 where
  pub ctx : Context
  pub uid : String
  pub resolve : ComponentReference → Resolution
  pub get_repository : Key → Read RepositoryRead
  pub externals : Externals K
  pub for_member : Member → Externals K
  pub pull : String → K → Result (String × Wit)
  pub append : String → String → String → K → Result String

abbrev pub pulled_condition : String
pulled_condition = "ComponentPulled"

module _ {K : Type 0} (w : Outside K) where
  -- The stashed keychain is cleared before the component is pulled with it.
  pull_component : Member → State K → K → State K × Outcome
  pull_component m s keychain = elim (w.externals.new_digest m.image) [
    | err e ↦ (s, fails (failed e))
    | ok image ↦ elim (w.pull image keychain) [
      | err e ↦ (s, fails (failed e))
      | ok (bytes, config) ↦ (
        record (mark s pulled_condition is_true "Resolved") {
          component = some bytes;
          config = some config;
        },
        done,
      )
    ]
  ]

  -- The repository of the component: the stashed keychain is cleared first, and the marks go to the
  -- component, of which nothing is kept.
  component_keychain : Member → State K → State K × Outcome
  component_keychain m s =
      let (s', o) =
        resolve_repository (w.for_member m) w.ctx w.get_repository pulled_condition
          m.subject.namespace (default_generic_component_spec m.generic).repository_ref
          (record s { keychain = none }) in
      (record s { keychain = s'.keychain; tag = s'.tag }, o)

  use_keychain : Member → State K → State K × Outcome
  unfolding pull_component
  use_keychain m s = elim s.keychain [
    | none ↦ (s, fails (failed "keychain"))
    | some keychain ↦ pull_component m (record s { keychain = none }) keychain
  ]

  after_keychain : Member → State K × Outcome → State K × Outcome
  unfolding use_keychain
  after_keychain m (s, done) = use_keychain m s
  after_keychain m (s, fails e) = (s, fails e)
  after_keychain m (s, panics) = (s, panics)

  ready_component : Member → State K → State K × Outcome
  unfolding component_keychain after_keychain
  ready_component m s =
      if m.image == ""
      then (mark s pulled_condition is_false "ImageMissing", fails durable)
      else after_keychain m (component_keychain m s)

  use_component : Member → State K → State K × Outcome
  unfolding ready_component
  use_component m st =
      let spans = add_span st.spans (synthesize_span w.externals m.subject) in
      let s = record st { spans = spans } in
      let (has_cycle, sanitized) = detect_trace_cycle w.uid spans in
      if has_cycle
      then (
        record (mark s pulled_condition is_false "CycleDetected") { trace = sanitized },
        fails durable,
      )
      else elim (gate "NotReady" m.observed) [
        | some stop ↦ (mark s pulled_condition stop.0 stop.1, fails stop.2)
        | none ↦ ready_component m s
      ]

  -- `ResolveComponent`, `Sync`, of the reference of the resource.
  unfoldable pub resolve_component : ComponentReference → State K → State K × Outcome
  unfolding use_component
  resolve_component ref st = elim (w.resolve ref) [
    | member m ↦ use_component m st
    | not_component ↦ (mark st pulled_condition is_false "NotComponent", fails halt)
    | component_not_found ↦ (mark st pulled_condition is_false "ComponentNotFound", fails durable)
    | resolution_error e ↦ (st, fails (failed e))
  ]

  append_with : State K → K → String → String → String → State K × Outcome
  append_with st keychain tag component image = elim (w.append image tag component keychain) [
    | err e ↦ (st, fails (failed e))
    | ok digest ↦ (record (mark st "Pushed" is_true "Pushed") { digest = some digest }, done)
  ]

  -- `AppendComponent`, `Sync`
  unfoldable pub append_component : State K → State K × Outcome
  unfolding append_with
  append_component st = elim st.keychain [
    | none ↦ (st, panics)
    | some keychain ↦ elim st.tag [
      | none ↦ (st, panics)
      | some tag ↦ elim st.component [
        | none ↦ (st, panics)
        | some component ↦ elim st.remote_image [
          | none ↦ (st, panics)
          | some image ↦ append_with st keychain tag component image
        ]
      ]
    ]
  ]
