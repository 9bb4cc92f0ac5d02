-- ===== src/Services/Lifecycle/Children.antt =====
-- integrations/services/internal/controllers/servicelifecycle_controller.go: the composition that
-- hosts a lifecycle, the trigger that serves it, the component of its clients, and the three in
-- sequence.
pub mod Admitted
pub mod Served
pub mod Steps
pub mod Misplaced
use Prim.Native.String
use wa8s.Prelude.{
  String, Bool, true, false, not, eqb, List, [], ◌∷◌, Option, none, some, if◌then◌else◌, ◌==◌,
}
use wa8s.Reconcile.{
  ConditionStatus, is_true, is_false, is_unknown, ApiError, Outcome, done, fails, panics, durable,
  transient, failed, generation_mismatch, Observed, Read, found, not_found, read_error, marked,
}
use wa8s.Apis.Meta.{Context, wa8s_namespace}
use wa8s.Apis.Components.{ComponentReference}
use wa8s.Apis.Components.Composition.{
  GenericCompositionSpec, spec, nil, cons, plain, nested, Composition,
}
use wa8s.Apis.Containers.{Trigger}
use wa8s.Services.Binding.ClientComponent.{no_reference, ref_source, cluster_component, no_sources}
use wa8s.Services.Lifecycle.{ServiceLifecycle}

abbrev pub MergeMaps : Type 0
MergeMaps = List (String × String) → List (String × String) → List (String × String)

-- `if child.Namespace == "" { child.Namespace = defaults.Namespace() }`
abbrev pub child_namespace : Context → String → String
child_namespace ctx namespace = if namespace == "" then wa8s_namespace ctx else namespace

abbrev pub implementation : ComponentReference → GenericCompositionSpec
implementation ref = spec "" false (
    cons (plain "componentized:services-lifecycle" (ref_source ref)) (
      cons
        (plain "componentized:services-credential-admin"
          (ref_source (cluster_component "wa8s-services-credential-admin")))
        nil))

abbrev pub host_composition : ComponentReference → GenericCompositionSpec
host_composition ref = spec "" false (
    cons
      (plain "componentized:services-host"
        (ref_source (cluster_component "wa8s-services-lifecycle-host-http")))
      (cons (nested "componentized:services-lifecycle" no_sources (implementation ref)) (
        cons
          (plain "componentized:logging" (ref_source (cluster_component "wa8s-services-logging")))
          nil)))

pub record HostChild : Type 0 where
  pub generate_name : String
  pub labels : List (String × String)
  pub composition : Composition

-- `ServiceLifecycleCompositionChildReconciler`, `DesiredChild`
unfoldable pub desired_host : MergeMaps → String → Context → ServiceLifecycle → HostChild
desired_host merge_maps key ctx r = record {
  generate_name = String.◌++◌ r.metadata.name "-";
  labels = merge_maps r.labels ((key, r.metadata.name) ∷ []);
  composition = record {
    metadata = record {
      namespace = child_namespace ctx r.metadata.namespace;
      name = "";
      annotations = [];
    };
    spec = record {
      generic = record { repository_ref = record { kind = ""; name = "" } };
      composition = host_composition r.spec.container.ref;
    };
  };
}

abbrev pub mark_lifecycle : ServiceLifecycle → String → ConditionStatus → String → ServiceLifecycle
mark_lifecycle r condition status reason = record r {
  marks = marked r.marks condition status reason;
}

-- A composition as it is read back.
pub record HostStatus : Type 0 where
  pub name : String
  pub observed : Observed
  pub image : String

-- How reflecting a child ends, with the name that `ServiceLifecycleCompositionStasher` was given.
pub record Reflected : Type 0 where
  pub lifecycle : ServiceLifecycle
  pub stashed : Option String
  pub outcome : Outcome

abbrev reflected : ServiceLifecycle → Option String → Outcome → Reflected
reflected r stashed o = record { lifecycle = r; stashed = stashed; outcome = o }

-- `ReflectChildStatusOnParentWithError` of the composition: its name is stashed before it is checked.
unfoldable pub reflect_host : ServiceLifecycle → Option ApiError → Option HostStatus → Reflected
reflect_host r (some e) child =
    reflected
      (if e.is_invalid
        then mark_lifecycle r "ComponentReady" is_false "Invalid"
        else mark_lifecycle r "ComponentReady" is_unknown "Unknown")
      none (fails (transient e.text))
reflect_host r none none =
    reflected (mark_lifecycle r "ComponentReady" is_false "Missing") none (fails durable)
reflect_host r none (some child) =
    if not (eqb child.observed.generation child.observed.observed_generation)
    then reflected (mark_lifecycle r "ComponentReady" is_unknown "Blocked") (some child.name)
        (fails generation_mismatch)
    else if not child.observed.ready_is_true
    then reflected
        (mark_lifecycle r "ComponentReady"
          (if child.observed.ready_is_false then is_false else is_unknown) "NotReady")
        (some child.name) (fails durable)
    else if child.image == ""
    then reflected (mark_lifecycle r "ComponentReady" is_false "ImageMissing") (some child.name)
        (fails durable)
    else reflected (mark_lifecycle r "ComponentReady" is_true "Ready") (some child.name) done

pub record TriggerChild : Type 0 where
  pub labels : List (String × String)
  pub trigger : Trigger

-- `HttpTriggerChildReconciler`, `DesiredChild`, with the stashed name of the composition; without
-- one `RetrieveOrDie` panics.
unfoldable pub desired_trigger :
    MergeMaps → String → Context → ServiceLifecycle → Option String → Option TriggerChild
desired_trigger merge_maps key ctx r none = none
desired_trigger merge_maps key ctx r (some composition) = some (record {
  labels = merge_maps r.labels ((key, r.metadata.name) ∷ []);
  trigger = record {
    metadata = record {
      namespace = child_namespace ctx r.metadata.namespace;
      name = String.◌++◌ r.metadata.name "-lifecycle";
      annotations = [];
    };
    spec = record r.spec.container {
      ref = record no_reference { kind = "Composition"; name = composition };
    };
  };
})

-- A trigger as it is read back.
pub record TriggerStatus : Type 0 where
  pub observed : Observed
  pub url : String

-- `ReflectChildStatusOnParentWithError` of the trigger.
unfoldable pub reflect_trigger :
    ServiceLifecycle → Option ApiError → Option TriggerStatus → ServiceLifecycle × Outcome
reflect_trigger r (some e) child =
    if e.is_invalid
    then (mark_lifecycle r "LifecycleReady" is_false "Invalid", fails (transient e.text))
    else if e.is_already_exists
    then (mark_lifecycle r "LifecycleReady" is_false "AlreadyExists", fails durable)
    else (mark_lifecycle r "LifecycleReady" is_unknown "Unknown", fails (transient e.text))
reflect_trigger r none none = (mark_lifecycle r "LifecycleReady" is_false "Missing", fails durable)
reflect_trigger r none (some child) =
    if not (eqb child.observed.generation child.observed.observed_generation)
    then (mark_lifecycle r "LifecycleReady" is_unknown "Blocked", fails generation_mismatch)
    else if not child.observed.ready_is_true
    then (
      mark_lifecycle r "LifecycleReady"
          (if child.observed.ready_is_false then is_false else is_unknown) "NotReady",
      fails durable,
    )
    else if child.url == ""
    then (mark_lifecycle r "LifecycleReady" is_false "URLMissing", fails durable)
    else (record (mark_lifecycle r "LifecycleReady" is_true "Ready") { url = child.url }, done)

-- What `ResolveComponentReference` answers for the client's component; defaulting its spec changes
-- nothing that is read.
pub record ClientComponent : Type 0 where
  pub observed : Observed
  pub image : String

-- `ClientComponentReconciler`, `Sync`: a missing image is marked on the condition of the host.
unfoldable pub reflect_client_component :
    (ComponentReference → Read ClientComponent) → ServiceLifecycle → ServiceLifecycle × Outcome
reflect_client_component resolve r = elim (resolve r.spec.client_ref) [
  | not_found ↦ (mark_lifecycle r "ClientReady" is_false "ComponentNotFound", fails durable)
  | read_error e ↦ (r, fails (failed e))
  | found c ↦
      if not (eqb c.observed.generation c.observed.observed_generation)
      then (mark_lifecycle r "ClientReady" is_unknown "Blocked", fails generation_mismatch)
      else if not c.observed.ready_is_true
      then (
        mark_lifecycle r "ClientReady" (if c.observed.ready_is_false then is_false else is_unknown)
            "NotReady",
        fails durable,
      )
      else if c.image == ""
      then (record (mark_lifecycle r "ComponentReady" is_false "ImageMissing") { image = "" }, done)
      else (record (mark_lifecycle r "ClientReady" is_true "Ready") { image = c.image }, done)
]
