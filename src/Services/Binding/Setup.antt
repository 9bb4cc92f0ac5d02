-- ===== src/Services/Binding/Setup.antt =====
-- integrations/services/internal/controllers/servicebinding_controller.go: what runs before
-- `ManageServiceBinding` and gives it its stash, and the client's composition after it.
-- `reconcilers.Sequence` stops at the first error, so a run that ends here asks for nothing.
pub mod Pipeline
use Prim.Native.String
use wa8s.Prelude.{
  String, Bool, true, false, not, eqb, List, [], ◌∷◌, ◌++◌, Option, none, some, if◌then◌else◌, ◌==◌,
}
use wa8s.Reconcile.{
  Mark, ConditionStatus, is_true, is_false, is_unknown, ApiError, Outcome, done, fails, durable,
  transient, generation_mismatch, failed, Observed, Read, found, not_found, read_error, marked,
}
use wa8s.Apis.Meta.{Context}
use wa8s.Apis.Services.Instance.{
  ServiceLifecycleReference, ServiceInstance, default_service_instance,
}
use wa8s.Services.Instance.{Lifecycle, Key, cluster_key, namespaced_key}
use wa8s.Services.Binding.{Binding, Stash, World, Run, manage, quiet}
use wa8s.Services.Credentials.{Secret, credential_finalizer}

-- A service instance as it is read.
pub record Provider : Type 0 where
  pub observed : Observed
  pub instance_ : ServiceInstance

-- How resolving ends: the new status, and what was stashed until then.
pub record Resolved : Type 0 where
  pub binding : Binding
  pub instance_id : Option String
  pub lifecycle_ref : Option ServiceLifecycleReference
  pub address : Option String
  pub outcome : Outcome

abbrev pub mark_instance : Binding → ConditionStatus → String → Binding
mark_instance b status reason = record b { marks = marked b.marks "InstanceReady" status reason }

abbrev nothing_stashed : Binding → Outcome → Resolved
nothing_stashed b o = record {
  binding = b;
  instance_id = none;
  lifecycle_ref = none;
  address = none;
  outcome = o;
}

abbrev pub lifecycle_key : Binding → ServiceLifecycleReference → Key
lifecycle_key b ref =
    if ref.kind == "ClusterServiceLifecycle"
    then cluster_key ref.name
    else namespaced_key b.namespace ref.name

-- An address that is missing is marked, and stashed all the same.
abbrev use_lifecycle : Resolved → Lifecycle → Resolved
use_lifecycle r l =
    if not (eqb l.observed.generation l.observed.observed_generation)
    then record r {
      binding = mark_instance r.binding is_unknown "Blocked";
      outcome = fails generation_mismatch;
    }
    else record r {
      binding = if l.url == "" then mark_instance r.binding is_unknown "MissingURL" else r.binding;
      address = some l.url;
    }

-- Once the instance is known to be ready: its id and the lifecycle that it names.
abbrev use_instance : Context → (Key → Read Lifecycle) → Binding → ServiceInstance → Resolved
use_instance ctx get_lifecycle b instance_ =
    let i = default_service_instance ctx instance_ in
    let b' =
      if i.service_instance_id == ""
      then mark_instance b is_unknown "MissingServiceInstanceId"
      else b in
    let r : Resolved = record {
      binding = mark_instance b' is_true "Ready";
      instance_id = some i.service_instance_id;
      lifecycle_ref = some i.spec.ref;
      address = none;
      outcome = done;
    } in
    elim (get_lifecycle (lifecycle_key b i.spec.ref)) [
      | found l ↦ use_lifecycle r l
      | not_found ↦ record r {
        binding = mark_instance r.binding is_false "NotFound";
        outcome = fails durable;
      }
      | read_error e ↦ record r { outcome = fails (failed e) }
    ]

abbrev use_provider : Context → (Key → Read Lifecycle) → Binding → Provider → Resolved
use_provider ctx get_lifecycle b p =
    if not (eqb p.observed.generation p.observed.observed_generation)
    then nothing_stashed (mark_instance b is_unknown "Blocked") (fails generation_mismatch)
    else if not p.observed.ready_is_true
    then nothing_stashed (mark_instance b is_unknown "NotReady") (fails durable)
    else use_instance ctx get_lifecycle b p.instance_

-- `ResolveServiceInstanceId`; the instance is read by namespace and name.
unfoldable pub resolve_service_instance_id :
    Context → (String → String → Read Provider) → (Key → Read Lifecycle) → Binding → Resolved
resolve_service_instance_id ctx get_instance get_lifecycle b =
    elim (get_instance b.namespace b.spec.ref.name) [
      | found p ↦ use_provider ctx get_lifecycle b p
      | not_found ↦ nothing_stashed (mark_instance b is_false "NotFound") (fails durable)
      | read_error e ↦ nothing_stashed b (fails (failed e))
    ]

-- `ServiceBindingSecret`, `DesiredChild`
unfoldable pub desired_secret : Binding → Secret
desired_secret b = record {
  namespace = b.namespace;
  name = String.◌++◌ "service-binding-" b.uid;
  labels =
      ("services.wa8s.reconciler.io/type", "binding")
      ∷ ("services.wa8s.reconciler.io/id", b.uid)
      ∷ [];
  finalizers = credential_finalizer ∷ [];
  data_ = [];
}

-- `MergeBeforeUpdate`: the data of the current secret stays.
abbrev pub merge_secret : Secret → Secret → Secret
merge_secret current desired = record current { labels = desired.labels }

abbrev mark_secret : Binding → ConditionStatus → String → Binding
mark_secret b status reason = record b { marks = marked b.marks "Secret" status reason }

-- `ReflectChildStatusOnParentWithError`, with the binding id that it stashes.
unfoldable pub reflect_secret :
    Binding → Option ApiError → Option Secret → Binding × Option String × Outcome
reflect_secret b (some e) child = (
  if e.is_invalid
      then mark_secret b is_false "Invalid"
      else if e.is_already_exists
      then mark_secret b is_false "AlreadyExists"
      else mark_secret b is_unknown "Unknown",
  none,
  fails (transient e.text),
)
reflect_secret b none none = (mark_secret b is_false "Missing", none, fails durable)
reflect_secret b none (some child) = (mark_secret b is_true "Created", some b.uid, done)

-- What a run of the reconciler is given from outside: the reads, the outcome of creating or updating
-- the secret, and the world of `ManageServiceBinding`.
pub record Turn : Type 0 where
  pub ctx : Context
  pub get_instance : String → String → Read Provider
  pub get_lifecycle : Key → Read Lifecycle
  pub secret_error : Option ApiError
  pub secret : Option Secret
  pub world : World

abbrev pub stash_of : Resolved → Option String → Stash
stash_of r binding_id = record {
  address = r.address;
  binding_id = binding_id;
  instance_id = r.instance_id;
}

abbrev pub ended : Binding → Outcome → Run
ended b o = record (quiet b) { outcome = o }

abbrev pub after_secret : World → Resolved → Binding × Option String × Outcome → Run
after_secret w r (b, binding_id, done) = manage w (stash_of r binding_id) b
after_secret w r (b, binding_id, o) = ended b o

abbrev pub after_resolved : Turn → Resolved → Outcome → Run
after_resolved t r done = after_secret t.world r (reflect_secret r.binding t.secret_error t.secret)
after_resolved t r o = ended r.binding o

-- The first three sub reconcilers of `ServiceBindingReconciler`, one after the other.
unfoldable pub set_up : Turn → Binding → Run
set_up t b =
    let r = resolve_service_instance_id t.ctx t.get_instance t.get_lifecycle b in
    after_resolved t r r.outcome
