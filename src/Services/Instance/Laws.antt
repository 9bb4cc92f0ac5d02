-- ===== src/Services/Instance/Laws.antt =====
-- integrations/services/internal/controllers/serviceinstance_controller.go: provisioning over a
-- history of reconciliations, deletion, and the resolved lifecycle.
use native.Mathlib.Nat.{add_assoc}
use wa8s.Prelude.{
  ℕ, suc, ◌≡◌, ◌≢◌, ◌↔◌, refl, ◌+◌, String, true, false, List, [], ◌∷◌, ◌++◌, Option, none, some,
  if◌then◌else◌, ◌==◌, arith, eq_iff, All,
}
use wa8s.Reconcile.{done, Read, found}
use wa8s.Services.Instance.{
  Instance, Lifecycle, Key, Call, provision, destroy, Dependent, Api, blocker, manage,
  with_bindings, destroy_instance, finalize, lifecycle_key, use_lifecycle,
  resolve_service_lifecycle,
}

-- No binding of a list refers to the instance.
abbrev pub IsFree : String → List Dependent → Type 0
IsFree name ds = All (λ d. d.ref_name ≢ name) ds

blocker-none_iff : (name : String) (ds : List Dependent) → (blocker name ds ≡ none) ↔ IsFree name ds
unfolding blocker
blocker-none_iff name [] = (λ _. tt, λ _. refl)
blocker-none_iff name (d ∷ ds) = ground (arith, eq_iff d.ref_name name, blocker-none_iff name ds)

-- With the list of the bindings and the address of the lifecycle service at hand, finalizing an
-- instance makes the one request to destroy it, with its id and not retaining, exactly when it was
-- provisioned and no listed binding refers to it.
pub finalize-destroys_iff :
    (answer : Call → Option String) (api : Api) (a : String) (r : Instance) (ds : List Dependent)
    → api.bindings ≡ found ds
    → ((finalize answer api (some a) r).calls
        ≡ (destroy a r.service_instance_id false, answer (destroy a r.service_instance_id false))
          ∷ [])
      ↔ ((r.service_instance_id ≢ "") × IsFree r.name ds)
unfolding finalize with_bindings destroy_instance
finalize-destroys_iff answer api a r ds e =
    let free = blocker-none_iff r.name ds in
    rw e (ground (arith, eq_iff r.service_instance_id "", free))

-- The provisioning requests that the service accepted.
abbrev pub Log : Type 0
Log = List (Call × Option String)

pub provisions : Log → ℕ
provisions [] = 0
provisions ((provision a i t tier rs, none) ∷ log) = suc (provisions log)
provisions (c ∷ log) = provisions log

provisions-append : (xs ys : Log) → provisions (xs ++ ys) ≡ provisions xs + provisions ys
unfolding provisions
provisions-append [] ys = omega arith
provisions-append ((provision a i t tier rs, none) ∷ xs) ys = omega (arith, provisions-append xs ys)
provisions-append ((provision a i t tier rs, some e) ∷ xs) ys = provisions-append xs ys
provisions-append ((destroy a i b, o) ∷ xs) ys = provisions-append xs ys

-- Reconciliations one after the other, each with the service's answers and the stashed address.
pub history : List ((Call → Option String) × Option String) → Instance → Instance × Log
history [] r = (r, [])
history ((answer, address) ∷ turns) r =
    let run = manage answer address r in
    let (r', log) = history turns run.instance_ in (r', run.calls ++ log)

manage_once :
    (answer : Call → Option String) (address : Option String) (r : Instance)
    → r.uid ≢ ""
    → let run = manage answer address r in
      (run.instance_.uid ≡ r.uid)
      × ((if r.service_instance_id == "" then 0 else 1) + provisions run.calls
          ≡ (if run.instance_.service_instance_id == "" then 0 else 1))
unfolding manage provisions
manage_once answer address r u = ground (arith, eq_iff r.service_instance_id "", eq_iff r.uid "")

history-provisions :
    (turns : List ((Call → Option String) × Option String)) (r : Instance)
    → r.uid ≢ ""
    → let (r', log) = history turns r in
      (if r.service_instance_id == "" then 0 else 1) + provisions log
      ≡ (if r'.service_instance_id == "" then 0 else 1)
unfolding history provisions
history-provisions [] r u = omega arith
history-provisions ((answer, address) ∷ turns) r u =
    let run = manage answer address r in
    let (same, once) = manage_once answer address r u in
    let later = history-provisions turns run.instance_ (rw same u) in
    let (r', log) = history turns run.instance_ in
    rw (provisions-append run.calls log, ← add_assoc, once) later

-- However often an instance that has a uid and no instance id is reconciled, and whatever the
-- service answers, the service accepts at most one request to provision it, and its status has an
-- id exactly when it did.
pub history-provisions_once :
    (turns : List ((Call → Option String) × Option String)) (r : Instance)
    → r.uid ≢ ""
    → r.service_instance_id ≡ ""
    → let (r', log) = history turns r in
      provisions log ≡ (if r'.service_instance_id == "" then 0 else 1)
history-provisions_once turns r u e =
    ground (arith, history-provisions turns r u, eq_iff r.service_instance_id "")

-- The state in which a lifecycle gives the address `u`, which the empty one can be.
abbrev pub Gives : Lifecycle → String → Type 0
Gives l u =
    (l.observed.generation ≡ l.observed.observed_generation)
    × (l.observed.ready_is_true ≡ true)
    × (l.url ≡ u)

-- When the lifecycle that the instance names is found, an address is stashed and the reconciliation
-- goes on exactly when the status of the lifecycle is current and ready and has that address, the
-- empty one included.
pub resolve_service_lifecycle-stashes_iff :
    (get : Key → Read Lifecycle) (r : Instance) (l : Lifecycle) (u : String)
    → get (lifecycle_key r) ≡ found l
    → (((resolve_service_lifecycle get r).1 ≡ some u)
        × ((resolve_service_lifecycle get r).2 ≡ done))
      ↔ Gives l u
unfolding resolve_service_lifecycle use_lifecycle
resolve_service_lifecycle-stashes_iff get r l u e = rw (e, resolve_service_lifecycle) (ground arith)
