-- ===== src/Services/Lifecycle.antt =====
-- integrations/services/internal/controllers/servicelifecycle_controller.go:
-- the resource, and `CheckForInstancesBeforeFinalizing`, which runs when it is deleted.
pub mod Laws
pub mod Children
use wa8s.Prelude.{
  String, Bool, not, ◌&&◌, ◌||◌, List, [], ◌∷◌, ◌++◌, Option, none, some, if◌then◌else◌, ◌==◌,
  is_some,
}
use wa8s.Reconcile.{Mark, is_false, Outcome, done, fails, failed, Result, ok, err}
use wa8s.Apis.Meta.{Context, ObjectMeta}
use wa8s.Apis.Services.Lifecycle.{ServiceLifecycleSpec}
use wa8s.Apis.Services.Instance.{ServiceInstance, default_service_instance}

-- The resource, of either scope: `finalizer` is its condition `Finalizer`, if it has one, and `marks`
-- are those of the other conditions. Of the status of a component only the image is kept.
pub record ServiceLifecycle : Type 0 where
  pub metadata : ObjectMeta
  pub labels : List (String × String)
  pub spec : ServiceLifecycleSpec
  pub marks : List Mark
  pub finalizer : Option Mark
  pub image : String
  pub url : String

-- What the cluster answers: the kind of the resource, whether it is namespaced, the instances of its
-- namespace or of all of them, tracking one of them, and clearing the condition.
pub record Cluster : Type 0 where
  pub ctx : Context
  pub kind : Result String
  pub namespaced : Result Bool
  pub instances : Result (List ServiceInstance)
  pub track : ServiceInstance → Option String
  pub clear_condition : Option String

-- The test of the loop, on a defaulted instance.
abbrev pub depends_on : String → Bool → ServiceLifecycle → ServiceInstance → Bool
depends_on kind namespaced r i =
    (i.spec.ref.name == r.metadata.name && i.spec.ref.kind == kind)
    && (not namespaced || i.spec.ref.namespace == r.metadata.namespace)

-- The first instance that depends on the lifecycle, defaulted.
unfoldable pub dependent :
    Context → String → Bool → ServiceLifecycle → List ServiceInstance → Option ServiceInstance
dependent ctx kind namespaced r [] = none
dependent ctx kind namespaced r (i ∷ is) =
    let rest = dependent ctx kind namespaced r is in
    if depends_on kind namespaced r (default_service_instance ctx i)
    then some (default_service_instance ctx i)
    else rest

-- `ClearCondition`
abbrev cleared : ServiceLifecycle → Option String → ServiceLifecycle × Outcome
cleared r none = (record r { finalizer = none }, done)
cleared r (some e) = (r, fails (failed e))

abbrev blocked : ServiceLifecycle → Option String → ServiceLifecycle × Outcome
blocked r none = (
  record r {
    finalizer =
        some
          (record { condition = "Finalizer"; status = is_false; reason = "ServiceInstanceExists" });
  },
  done,
)
blocked r (some e) = (r, fails (failed e))

-- The listed instances, of a kind and a scope that are known.
check_instances :
    Cluster → String → Bool → ServiceLifecycle → List ServiceInstance → ServiceLifecycle × Outcome
check_instances w kind namespaced r is = elim (dependent w.ctx kind namespaced r is) [
  | some i ↦ blocked r (w.track i)
  | none ↦ cleared r w.clear_condition
]

-- `Finalize`: a lifecycle that has dependents is marked, and the call returns no error.
unfoldable pub finalize : Cluster → ServiceLifecycle → ServiceLifecycle × Outcome
unfolding check_instances
finalize w r = elim w.kind [
  | err e ↦ (r, fails (failed e))
  | ok kind ↦ elim w.namespaced [
    | err e ↦ (r, fails (failed e))
    | ok namespaced ↦ elim w.instances [
      | err e ↦ (r, fails (failed e))
      | ok is ↦ check_instances w kind namespaced r is
    ]
  ]
]

-- `ReadyToClearFinalizer`, which `reconcilers.WithFinalizer` asks once `Finalize` has ended without an
-- error: the finalizer is cleared, and the lifecycle is gone, only where it answers true.
unfoldable pub ready_to_clear_finalizer : ServiceLifecycle → Bool
ready_to_clear_finalizer r = not (is_some r.finalizer)
