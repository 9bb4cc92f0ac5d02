-- ===== src/Services/Lifecycle/Laws.antt =====
-- integrations/services/internal/controllers/servicelifecycle_controller.go: dependent instances at
-- the deletion of a lifecycle.
use wa8s.Prelude.{
  ◌≡◌, ◌≢◌, ◌↔◌, eq_iff, false, ◌⊎◌, inl, inr, String, Bool, true, List, [], ◌∷◌, none, arith,
  Option-cases, Bool-cases, is_some,
}
use wa8s.Reconcile.{done, ok}
use wa8s.Apis.Meta.{Context}
use wa8s.Apis.Services.Instance.{
  ServiceInstance, default_service_instance, default_service_instance_spec,
  default_service_lifecycle_reference,
}
use wa8s.Services.Lifecycle.{
  ServiceLifecycle, Cluster, depends_on, dependent, finalize, check_instances,
  ready_to_clear_finalizer,
}

-- An instance names a kind of lifecycle: as it stands, or by naming none the one of clusters.
abbrev pub NamesKind : ServiceInstance → String → Type 0
NamesKind i kind =
    ((i.spec.ref.kind ≡ kind) × (kind ≢ ""))
    ⊎ ((i.spec.ref.kind ≡ "") × (kind ≡ "ClusterServiceLifecycle"))

-- It names a namespace: as it stands, or its own one by naming none with a kind that is not the one
-- of clusters.
abbrev pub NamesNamespace : ServiceInstance → String → String → Type 0
NamesNamespace i kind namespace =
    ((i.spec.ref.namespace ≡ namespace) × ((namespace ≢ "") ⊎ (kind ≡ "ClusterServiceLifecycle")))
    ⊎ ((i.spec.ref.namespace ≡ "")
        × ((kind ≢ "ClusterServiceLifecycle") × (i.metadata.namespace ≡ namespace)))

-- An instance, as it is stored, refers to the lifecycle by its name and kind and, if the lifecycle is
-- of a namespace, by that.
abbrev pub RefersTo : String → Bool → ServiceLifecycle → ServiceInstance → Type 0
RefersTo kind namespaced r i =
    ((i.spec.ref.name ≡ r.metadata.name) × NamesKind i kind)
    × ((namespaced ≡ false) ⊎ NamesNamespace i kind r.metadata.namespace)

depends_on-RefersTo :
    (ctx : Context) (kind : String) (namespaced : Bool) (r : ServiceLifecycle) (i : ServiceInstance)
    → (depends_on kind namespaced r (default_service_instance ctx i) ≡ true)
      ↔ RefersTo kind namespaced r i
unfolding default_service_instance default_service_instance_spec default_service_lifecycle_reference
depends_on-RefersTo ctx kind namespaced r i = ground (
  arith,
  eq_iff i.spec.ref.kind "",
  eq_iff i.spec.ref.kind kind,
  eq_iff i.spec.ref.name r.metadata.name,
  eq_iff i.spec.ref.namespace "",
  eq_iff i.spec.ref.namespace r.metadata.namespace,
  eq_iff i.spec.ref.kind "ClusterServiceLifecycle",
  eq_iff "ClusterServiceLifecycle" kind,
  eq_iff i.metadata.namespace r.metadata.namespace,
)

-- Some instance of a list refers to the lifecycle.
abbrev pub HasDependent : String → Bool → ServiceLifecycle → List ServiceInstance → Type 0
HasDependent kind namespaced r [] = ⊥
HasDependent kind namespaced r (i ∷ is) =
    RefersTo kind namespaced r i ⊎ HasDependent kind namespaced r is

dependent-some_iff :
    (ctx : Context) (kind : String) (namespaced : Bool) (r : ServiceLifecycle)
    (is : List ServiceInstance)
    → (is_some (dependent ctx kind namespaced r is) ≡ true) ↔ HasDependent kind namespaced r is
unfolding dependent
dependent-some_iff ctx kind namespaced r [] = ground arith
dependent-some_iff ctx kind namespaced r (i ∷ is) =
    let refers = depends_on-RefersTo ctx kind namespaced r i in
    elim (Bool-cases (depends_on kind namespaced r (default_service_instance ctx i))) [
      | inl e ↦ let there = refers.0 e in (λ _. inl there, λ _. ground (arith, e))
      | inr e ↦ ground (arith, e, refers, dependent-some_iff ctx kind namespaced r is)
    ]

check_instances_lem :
    (w : Cluster) (r : ServiceLifecycle) (kind : String) (namespaced : Bool)
    (is : List ServiceInstance)
    → ((i : ServiceInstance) → w.track i ≡ none)
    → w.clear_condition ≡ none
    → let (r', o) = check_instances w kind namespaced r is in
      (o ≡ done) × ((ready_to_clear_finalizer r' ≡ true) ↔ (¬ HasDependent kind namespaced r is))
unfolding check_instances ready_to_clear_finalizer
check_instances_lem w r kind namespaced is track clear =
    let iff = dependent-some_iff w.ctx kind namespaced r is in
    elim (Option-cases (dependent w.ctx kind namespaced r is)) [
      | inl e ↦ (
        ground (arith, e, clear),
        (λ _ d. ground (arith, iff.1 d, e), λ _. ground (arith, e, clear)),
      )
      | inr (i, e) ↦
          let there = iff.0 (ground (arith, e)) in
          (
            ground (arith, e, track i),
            (λ ready. ground (arith, e, track i, ready), λ free. absurd (free there)),
          )
    ]

-- With the instances listed and the calls to track and to clear succeeding, finalizing a lifecycle
-- ends without an error, and its finalizer is cleared exactly when no listed instance refers to
-- it, by its name and its kind and, for a lifecycle of a namespace, that namespace, where an instance
-- that leaves out the kind means the one of clusters, and one that leaves out the namespace of
-- another kind means its own: whatever an earlier attempt to delete it has left in its status.
pub finalize-clears_iff :
    (w : Cluster) (r : ServiceLifecycle) (kind : String) (namespaced : Bool)
    (is : List ServiceInstance)
    → w.kind ≡ ok kind
    → w.namespaced ≡ ok namespaced
    → w.instances ≡ ok is
    → ((i : ServiceInstance) → w.track i ≡ none)
    → w.clear_condition ≡ none
    → let (r', o) = finalize w r in
      (o ≡ done) × ((ready_to_clear_finalizer r' ≡ true) ↔ (¬ HasDependent kind namespaced r is))
unfolding finalize
finalize-clears_iff w r kind namespaced is ek en ei track clear =
    let same : finalize w r ≡ check_instances w kind namespaced r is = ground (arith, ek, en, ei) in
    rw same (check_instances_lem w r kind namespaced is track clear)
