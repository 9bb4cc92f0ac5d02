-- ===== src/Triggers/Laws.antt =====
-- internal/controllers/httptrigger_controller.go and wrpctrigger_controller.go: what a trigger deploys,
-- and how its service finds it.
use wa8s.Prelude.{
  ℕ, eqb, is_some, ◌≡◌, ◌≢◌, inl, inr, refl, sym, ap, String, true, List, [], ◌∷◌, Option, none,
  some, if◌then◌else◌, ◌==◌, arith, eq_iff, eq_refl, eq_cases, Bool-cases,
}
use wa8s.Reconcile.{ApiError, Outcome, done, fails, panics}
use wa8s.Apis.Meta.{ObjectMeta, lookup}
use wa8s.Services.Lifecycle.Children.{MergeMaps}
use wa8s.Triggers.{Container, ImageStatus, reflect_image}
use wa8s.Triggers.Workloads.{
  Protocol, Port, Deployment, DeploymentStatus, Service, deployment_of, service_of,
  desired_deployment, reflect_deployment, desired_service,
}
use wa8s.Triggers.Steps.{Turn, Run, image_condition, after_deployment, after_image, sync_trigger}

-- A container image that can be deployed: it is current, ready and has an image.
abbrev pub IsUsable : ImageStatus → Type 0
IsUsable c =
    (eqb c.observed.generation c.observed.observed_generation ≡ true)
    × (c.observed.ready_is_true ≡ true)
    × (c.image ≢ "")

-- What the step of the container image leaves when it ends without an error.
abbrev Took : Container → Option ImageStatus → Container → Type 0
Took r child r' =
    (c : ImageStatus) × (child ≡ some c)
    × IsUsable c
    × (r'.image ≡ c.image)
    × (r'.metadata ≡ r.metadata)
    × (r'.spec ≡ r.spec)

reflect_image-Took :
    (r : Container) (e : Option ApiError) (child : Option ImageStatus)
    → let (r', o) = reflect_image image_condition r e child in o ≡ done → Took r child r'
unfolding reflect_image
reflect_image-Took r (some e) child h = absurd (ground (arith))
reflect_image-Took r none none h = absurd (ground (arith))
reflect_image-Took r none (some c) h =
    let o = c.observed in
    elim (Bool-cases (eqb o.generation o.observed_generation)) [
      | inr stale ↦ absurd (ground (arith, stale))
      | inl current ↦ elim (Bool-cases o.ready_is_true) [
        | inr waits ↦ absurd (ground (arith, current, waits))
        | inl ready ↦ elim (eq_cases c.image "") [
          | inl (e, _) ↦ absurd (ground (arith, current, ready, e))
          | inr (e, given) ↦ (
            c,
            refl,
            (current, ready, given),
            ground (arith, current, ready, e),
            ground (arith, current, ready, e),
            ground (arith, current, ready, e),
          )
        ]
      ]
    ]

-- The port that a name stands for.
abbrev pub named_port : String → List Port → Option ℕ
named_port name [] = none
named_port name (port ∷ ports) =
    let rest = named_port name ports in if port.name == name then some port.port else rest

-- A service finds the pods of a deployment: they are in its namespace, have the labels that it
-- selects, and their container has a port of the name that it sends to.
pub record Routes (v : Service) (d : Deployment) : Type 0 where
  pub same_namespace : v.namespace ≡ d.namespace
  pub selects : (k x : String) → lookup k v.selector ≡ some x → lookup k d.pod_labels ≡ some x
  pub reaches : (n : ℕ) × (named_port v.target_port d.container.ports ≡ some n)

-- What a run asks for: the deployment has the image of a usable container image, the service finds
-- its pods, and no run asks for none of the one or of the other.
abbrev pub Serves : Turn → Run → Type 0
Serves t run =
    ((d : Option Deployment)
      → run.deployed ≡ some d
      → (c : ImageStatus) × (dep : Deployment) × (t.image ≡ some c)
        × IsUsable c
        × (d ≡ some dep)
        × (dep.container.image ≡ c.image))
    × ((s : Option Service)
        → run.served ≡ some s
        → (v : Service) × (dep : Deployment) × (s ≡ some v)
          × (run.deployed ≡ some (some dep))
          × Routes v dep)
    × (run.outcome ≡ done → is_some run.served ≡ true)

some_injective {ℓ} : {A : Type ℓ} {a b : A} → some a ≡ some b → a ≡ b
some_injective h = cc

module _ (p : Protocol) (merge_maps : MergeMaps) (key : String) (t : Turn) where
  routes :
      (r r' : Container)
      → r'.metadata ≡ r.metadata
      → Routes (service_of p merge_maps key r') (deployment_of p merge_maps key r)
  routes r r' e = record {
    same_namespace = ap (λ (m : ObjectMeta). m.namespace) e;
    selects = λ k x h. rw e at h;
    reaches = (p.container_port, rw (eq_refl p.name) refl);
  }

  reflect_deployment-keeps :
      (r : Container) (e : Option ApiError) (child : Option DeploymentStatus)
      → let r' = (reflect_deployment r e child).0 in
        (r'.metadata ≡ r.metadata) × (r'.image ≡ r.image)
  unfolding reflect_deployment
  reflect_deployment-keeps r (some e) child = ground arith
  reflect_deployment-keeps r none none = (refl, refl)
  reflect_deployment-keeps r none (some child) = ground arith

  after_deployment-Serves :
      (r : Container) (q : Container × Outcome) (c : ImageStatus)
      → t.image ≡ some c
      → IsUsable c
      → r.image ≡ c.image
      → (q.0.metadata ≡ r.metadata) × (q.0.image ≡ r.image)
      → Serves t (after_deployment p merge_maps key t (desired_deployment p merge_maps key r) q)
  unfolding desired_deployment desired_service
  after_deployment-Serves r (r', done) c read usable image (m, i) =
      let d : desired_deployment p merge_maps key r ≡ some (deployment_of p merge_maps key r) =
        ground (arith, eq_iff r.image "", usable.2, image) in
      let v : desired_service p merge_maps key r' ≡ some (service_of p merge_maps key r') =
        ground (arith, eq_iff r'.image "", usable.2, image, i) in
      rw (d, v)
        (
          (λ x h.
              (c, deployment_of p merge_maps key r, read, usable, sym (some_injective h), image)),
          (λ x h. (
            service_of p merge_maps key r',
            deployment_of p merge_maps key r,
            sym (some_injective h),
            refl,
            routes r r' m,
          )),
          (λ h. refl),
        )
  after_deployment-Serves r (r', fails e) c read usable image (m, i) =
      let d : desired_deployment p merge_maps key r ≡ some (deployment_of p merge_maps key r) =
        ground (arith, eq_iff r.image "", usable.2, image) in
      rw d (
        (λ x h. (c, deployment_of p merge_maps key r, read, usable, sym (some_injective h), image)),
        (λ x h. absurd (cc)),
        (λ h. absurd (cc)),
      )
  after_deployment-Serves r (r', panics) c read usable image (m, i) =
      let d : desired_deployment p merge_maps key r ≡ some (deployment_of p merge_maps key r) =
        ground (arith, eq_iff r.image "", usable.2, image) in
      rw d (
        (λ x h. (c, deployment_of p merge_maps key r, read, usable, sym (some_injective h), image)),
        (λ x h. absurd (cc)),
        (λ h. absurd (cc)),
      )

  after_image-Serves :
      (r : Container) (q : Container × Outcome)
      → (q.1 ≡ done → Took r t.image q.0)
      → Serves t (after_image p merge_maps key t q)
  after_image-Serves r (r', done) took =
      let (c, read, usable, image, m, sp) = took refl in
      after_deployment-Serves r' (reflect_deployment r' t.deployment_error t.deployment) c read
        usable image (reflect_deployment-keeps r' t.deployment_error t.deployment)
  after_image-Serves r (r', fails e) took =
      (λ x h. absurd (cc), λ x h. absurd (cc), λ h. absurd (cc))
  after_image-Serves r (r', panics) took =
      (λ x h. absurd (cc), λ x h. absurd (cc), λ h. absurd (cc))

  -- Reconciling a trigger asks for a deployment only while its container image is current, ready and
  -- has an image, and the deployment runs that image; it asks for a service only after such a
  -- deployment, and the service finds its pods and their port. It never asks for none of them, which
  -- would delete what runs, and when it ends without an error it has asked for both.
  pub sync_trigger-Serves : (r : Container) → Serves t (sync_trigger p merge_maps key t r)
  unfolding sync_trigger
  sync_trigger-Serves r =
      after_image-Serves r (reflect_image image_condition r t.image_error t.image)
        (reflect_image-Took r t.image_error t.image)
