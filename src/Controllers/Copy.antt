-- ===== src/Controllers/Copy.antt =====
-- internal/controllers/component_controller.go: `CopyComponent`.
pub mod Laws
use wa8s.Prelude.{
  String, Bool, true, false, List, [], ◌∷◌, ◌++◌, Option, none, some, if◌then◌else◌, ◌==◌,
}
use wa8s.Reconcile.{
  Mark, ConditionStatus, is_true, is_false, is_unknown, Outcome, done, fails, panics, halt, durable,
  failed, Result, ok, err,
}
use wa8s.Apis.Components.{ComponentReference, OciReference, ComponentSpec}
use wa8s.Trace.{Trace, add_span, detect_trace_cycle}
use wa8s.Controllers.{State, Externals, Subject, mark, synthesize_span}

-- What `ResolveComponentReference` answers: an error, or a component with the answers of
-- `apis.ConditionIsFalse` and `apis.ConditionIsUnknown` for its Ready condition.
pub record ComponentDuck : Type 0 where
  pub subject : Subject
  pub image : String
  pub ready_is_false : Bool
  pub ready_is_unknown : Bool

pub data Resolution : Type 0 where
  component : ComponentDuck → Resolution
  not_component : Resolution
  component_not_found : Resolution
  resolution_error : String → Resolution

-- A request to the registry: a copy from a digest to a tag.
abbrev pub Copies : Type 0
Copies = List (String × String)

pub record Run (K : Type 0) : Type 0 where
  pub state : State K
  pub copies : Copies
  pub outcome : Outcome

abbrev pub copied_condition : String
copied_condition = "ComponentCopied"

module _ {K : Type 0} (x : Externals K) where
  abbrev stopped : State K → Outcome → Run K
  stopped st o = record { state = st; copies = []; outcome = o }

  abbrev copy_failed : State K → Copies → String → Run K
  copy_failed st copies e = record {
    state = mark st copied_condition is_false "CopyFailed";
    copies = copies;
    outcome = fails (failed e);
  }

  -- The copy, and the configuration of what was copied.
  copy_from : State K → K → String → String → Run K
  copy_from st keychain tag source = elim (x.copy source tag keychain) [
    | err e ↦ copy_failed st ((source, tag) ∷ []) e
    | ok digest ↦ elim (x.pull_config digest keychain) [
      | err e ↦ copy_failed st ((source, tag) ∷ []) e
      | ok config ↦ record {
        state = record (mark st copied_condition is_true "Copied") {
          digest = some digest;
          config = some config;
        };
        copies = (source, tag) ∷ [];
        outcome = done;
      }
    ]
  ]

  -- A component that is in no cycle, with the span stashed.
  use_component : State K → K → String → ComponentDuck → Run K
  unfolding copy_from
  use_component st keychain tag c =
      if c.ready_is_false
      then stopped (mark st copied_condition is_false "Blocked") (fails durable)
      else if c.ready_is_unknown
      then stopped (mark st copied_condition is_unknown "Blocked") (fails durable)
      else if c.image == ""
      then stopped (mark st copied_condition is_unknown "Blocked") (fails durable)
      else elim (x.new_digest c.image) [
        | err e ↦ stopped (mark st copied_condition is_false "InvalidImage") (fails durable)
        | ok source ↦ copy_from st keychain tag source
      ]

  copy_component_ref : String → State K → K → String → ComponentDuck → Run K
  unfolding use_component
  copy_component_ref uid st keychain tag c =
      let spans = add_span st.spans (synthesize_span x c.subject) in
      let st' = record st { spans = spans } in
      let (has_cycle, sanitized) = detect_trace_cycle uid spans in
      if has_cycle
      then stopped
          (record (mark st' copied_condition is_false "CycleDetected") { trace = sanitized })
          (fails durable)
      else use_component st' keychain tag c

  copy_ref :
      (ComponentReference → Resolution) → String → State K → K → String → ComponentReference → Run K
  unfolding copy_component_ref
  copy_ref resolve uid st keychain tag ref = elim (resolve ref) [
    | component c ↦ copy_component_ref uid st keychain tag c
    | not_component ↦ stopped (mark st copied_condition is_false "NotComponent") (fails halt)
    | component_not_found ↦
        stopped (mark st copied_condition is_unknown "ComponentNotFound") (fails durable)
    | resolution_error e ↦ stopped st (fails (failed e))
  ]

  copy_source :
      (ComponentReference → Resolution) → String → ComponentSpec → State K → K → String → Run K
  unfolding copy_ref copy_from
  copy_source resolve uid spec st keychain tag = elim spec.oci [
    | some oci ↦ elim (x.resolve_digest oci.image keychain) [
      | err e ↦ stopped st (fails (failed e))
      | ok source ↦ copy_from st keychain tag source
    ]
    | none ↦ elim spec.ref [
      | some ref ↦ copy_ref resolve uid st keychain tag ref
      | none ↦ stopped st panics
    ]
  ]

  -- `CopyComponent`, `Sync`, for the resource with a uid and a spec.
  unfoldable pub copy_component :
      (ComponentReference → Resolution) → String → ComponentSpec → State K → Run K
  unfolding copy_source
  copy_component resolve uid spec st = elim st.keychain [
    | none ↦ stopped st panics
    | some keychain ↦ elim st.tag [
      | none ↦ stopped st panics
      | some tag ↦ copy_source resolve uid spec st keychain tag
    ]
  ]
