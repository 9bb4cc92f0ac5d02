-- ===== src/Services/Definition/Steps.antt =====
-- integrations/services/internal/controllers/serviceresourcedefinition_controller.go: the children of
-- a definition in the order of the reconciler, and the manager of its custom types.
use wa8s.Prelude.{
  String, Bool, true, false, List, [], ◌∷◌, Option, none, some, if◌then◌else◌, ◌==◌, not,
}
use wa8s.Reconcile.{
  Mark, ConditionStatus, is_true, is_false, is_unknown, ApiError, Outcome, done, fails, panics,
  update_status, failed,
}
use wa8s.Services.Definition.{
  Definition, mark_definition, reflect_lifecycle, reflect_crd, reflect_duck,
}

abbrev pub says_true : ConditionStatus → Bool
says_true is_true = true
says_true is_false = false
says_true is_unknown = false

-- Whether a condition is true after a log of marks, from what it was before them.
unfoldable pub latest : String → Bool → List Mark → Bool
latest condition before [] = before
latest condition before (m ∷ ms) =
    latest condition (if m.condition == condition then says_true m.status else before) ms

-- `apis.ConditionIsTrue(resource.GetConditionManager(ctx).GetCondition(condition))`
abbrev pub condition_is_true : String → Definition → Bool
condition_is_true condition r = latest condition false r.marks

-- What a run is given from outside: for each child the outcome of creating or updating it, and the
-- error of the sub manager, if it has one.
pub record Turn : Type 0 where
  pub lifecycle_error : Option ApiError
  pub lifecycle : Option ConditionStatus
  pub instance_error : Option ApiError
  pub instance_crd : Option (List (String × String))
  pub client_error : Option ApiError
  pub client_crd : Option (List (String × String))
  pub duck_error : Option ApiError
  pub duck : Option ConditionStatus
  pub manager : Option String

-- `started` says whether the sub manager was asked to run the reconcilers of the custom types.
pub record Run : Type 0 where
  pub definition : Definition
  pub started : Bool
  pub outcome : Outcome

abbrev pub stopped : Definition → Outcome → Run
stopped r o = record { definition = r; started = false; outcome = o }

-- `ServiceResourceDefinitionDuckSubReconciler`, `Sync`
unfoldable pub run_manager : Option String → Definition → Run
unfolding latest
run_manager manager r =
    if not (condition_is_true "InstanceDefinitionReady" r)
    then stopped r (fails update_status)
    else if not (condition_is_true "ClientDefinitionReady" r)
    then stopped r (fails update_status)
    else elim manager [
      | some e ↦ record { definition = r; started = true; outcome = fails (failed e) }
      | none ↦ record {
        definition = mark_definition r "ReconcilerRunning" is_true "Running";
        started = true;
        outcome = done;
      }
    ]

-- The same sub reconciler when the definition is deleted, once the manager has shut down.
unfoldable pub finalize_manager : Definition → Definition × Outcome
finalize_manager r = (mark_definition r "ReconcilerRunning" is_true "Shutdown", done)

abbrev pub and_then : Definition × Outcome → (Definition → Run) → Run
and_then (r, done) k = k r
and_then (r, fails e) k = stopped r (fails e)
and_then (r, panics) k = stopped r panics

-- `ServiceResourceDefinitionReconciler`: the sequence of its five sub reconcilers.
unfoldable pub sync_definition : Turn → Definition → Run
unfolding run_manager
sync_definition t r = and_then (reflect_lifecycle r t.lifecycle_error t.lifecycle) (λ r1.
    and_then (reflect_crd "InstanceDefinitionReady" r1 t.instance_error t.instance_crd) (λ r2.
      and_then (reflect_crd "ClientDefinitionReady" r2 t.client_error t.client_crd)
        (λ r3. and_then (reflect_duck r3 t.duck_error t.duck) (λ r4. run_manager t.manager r4))))
