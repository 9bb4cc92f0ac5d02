-- ===== src/Services/Examples/Histories.antt =====
-- The runs of a reconciler on a binding of two hours.
use wa8s.Prelude.{◌≡◌, ◌≢◌, ◌↔◌, refl, ◌*◌, String, false, List, [], ◌∷◌, none, nonempty, replicate}
use wa8s.Prelude.Int.{◌-ℤ◌}
use wa8s.Reconcile.{done}
use wa8s.Apis.Services.{hour}
use wa8s.Services.Instance.{Lifecycle}
use wa8s.Services.Binding.{Binding, bind, never}
use wa8s.Services.Binding.Setup.{Turn, Provider, desired_secret, set_up}
use wa8s.Services.Binding.Setup.Pipeline.{set_ups}
use wa8s.Services.Binding.ClientComponent.{reflect_client}
use wa8s.Services.Binding.Refinement.{phase, accepted}
use wa8s.Services.Binding.Refinement.Lives.{Requests, set_ups-implements_life}
use wa8s.Services.Binding.Sequence.{Turns, reconcile_binding, reconcile_binding-schedules_iff}
use wa8s.Services.Binding.Sequence.Settling.{IsSteady}
use wa8s.Services.Binding.Sequence.Settled.{set_ups-settle}
use wa8s.Services.Examples.Bindings.{fresh, ready, db, turn_at}

abbrev turns : List Turn
turns = turn_at 1 ∷ turn_at 2 ∷ turn_at (3 * hour) ∷ turn_at (4 * hour) ∷ []

set_ups-implements_life_example :
    Requests "uid-1" (phase (set_ups turns fresh).0) (accepted (set_ups turns fresh).1)
set_ups-implements_life_example =
    set_ups-implements_life turns fresh (nonempty "uid-1" refl) refl refl

abbrev provider : Provider
provider = record { observed = ready; instance_ = db }

abbrev lifecycle : Lifecycle
lifecycle = record { observed = ready; url = "http://db" }

steady : IsSteady (turn_at 1) fresh provider lifecycle (desired_secret fresh)
unfolding ◌-ℤ◌
steady = record {
  reads_instance = refl;
  current = refl;
  ready = refl;
  reads_lifecycle = refl;
  current_lifecycle = refl;
  no_error = refl;
  written = refl;
  accepts = λ _. refl;
  not_over = refl;
}

set_ups-settle_example :
    let (b', log) = set_ups (replicate 3 (turn_at 1)) fresh in
    ((a : String) × (i : String) × (log ≡ (bind a "uid-1" i ("read" ∷ []), none) ∷ []))
    × ((set_up (turn_at 1) b').calls ≡ [])
    × ((set_up (turn_at 1) b').outcome ≡ done)
set_ups-settle_example =
    set_ups-settle 2 (turn_at 1) fresh provider lifecycle (desired_secret fresh) steady
      (nonempty "uid-1" refl) refl refl

abbrev bound : Binding
bound = record fresh { service_binding_id = "uid-1"; secret_name = "service-binding-uid-1" }

abbrev run : Turns
run = record {
  setup = turn_at 1;
  client_error = none;
  client = none;
  annotations = [];
  owners = [];
  child_error = none;
  child = none;
}

reconcile_binding-schedules_iff_example : ((reconcile_binding run bound).requeue ≢ never) ↔ (
    ((set_up (turn_at 1) bound).outcome ≡ done)
    × ((reflect_client (set_up (turn_at 1) bound).binding none none).1 ≡ done)
    × ((set_up (turn_at 1) bound).binding.expired ≡ false))
reconcile_binding-schedules_iff_example = reconcile_binding-schedules_iff run bound
