-- ===== src/Services/Lifecycle/Children/Misplaced.antt =====
-- integrations/services/internal/controllers/servicelifecycle_controller.go: the condition
-- `ComponentReady` at the end of a run, which is that of the host, and the component of the clients.
use wa8s.Prelude.{
  true, ◌≡◌, ◌≢◌, ◌↔◌, refl, sym, ap, ◌∙◌, String, false, List, [], ◌∷◌, ◌++◌, Option, none, some,
  if◌then◌else◌, ◌==◌, arith, eq_iff, is_some, inl, inr, Bool-cases,
}
use wa8s.Reconcile.{
  Mark, ConditionStatus, ApiError, Outcome, done, fails, panics, found, marked, is_true, is_false,
  Read-cases,
}
use wa8s.Apis.Components.{ComponentReference}
use mathlib.Core.Path.{subst}
use wa8s.Apis.Services.Lifecycle.{ServiceLifecycleSpec}
use wa8s.Services.Lifecycle.{ServiceLifecycle}
use wa8s.Services.Lifecycle.Children.{
  HostStatus, TriggerStatus, ClientComponent, reflect_host, desired_trigger, reflect_trigger,
  reflect_client_component,
}
use wa8s.Services.Lifecycle.Children.Steps.{Turn, sync_lifecycle, after_host, after_trigger}

-- The status of a condition, as the last mark of it leaves it.
unfoldable pub status_of : String → Option ConditionStatus → List Mark → Option ConditionStatus
status_of name current [] = current
status_of name current (m ∷ ms) =
    status_of name (if m.condition == name then some m.status else current) ms

status_of-append :
    (name : String) (current : Option ConditionStatus) (xs ys : List Mark)
    → status_of name current (xs ++ ys) ≡ status_of name (status_of name current xs) ys
unfolding status_of
status_of-append name current [] ys = refl
status_of-append name current (x ∷ xs) ys =
    status_of-append name (if x.condition == name then some x.status else current) xs ys

-- The condition of the host at a lifecycle.
abbrev pub host_condition : ServiceLifecycle → Option ConditionStatus
host_condition r = status_of "ComponentReady" none r.marks

-- The component of the clients is there and has no image.
abbrev pub IsImageless : Turn → ComponentReference → Type 0
IsImageless t ref = (c : ClientComponent) × (t.resolve ref ≡ found c) × (c.image ≡ "")

-- The host is ready, and the references are those of before.
abbrev HostIsReady : ServiceLifecycle → ServiceLifecycle → Type 0
HostIsReady r r' = (host_condition r' ≡ some is_true) × (r'.spec ≡ r.spec)

marked_true :
    (name : String) (ms : List Mark)
    → status_of name none (marked ms name is_true "Ready") ≡ some is_true
unfolding status_of
marked_true name ms = rw (status_of-append name none ms) (ground (arith, eq_iff name name))

host_ready :
    (r : ServiceLifecycle) (e : Option ApiError) (child : Option HostStatus)
    → let h = reflect_host r e child in h.outcome ≡ done → HostIsReady r h.lifecycle
unfolding reflect_host
host_ready r (some e) child h = absurd (ground arith)
host_ready r none none h = absurd (ground arith)
host_ready r none (some c) h = ground (arith, h, marked_true "ComponentReady" r.marks)

trigger_keeps :
    (r : ServiceLifecycle) (e : Option ApiError) (child : Option TriggerStatus)
    → let (r', o) = reflect_trigger r e child in
      o ≡ done → (host_condition r' ≡ host_condition r) × (r'.spec ≡ r.spec)
unfolding reflect_trigger status_of
trigger_keeps r (some e) child h = absurd (ground arith)
trigger_keeps r none none h = absurd (ground arith)
trigger_keeps r none (some c) h =
    let kept =
      status_of-append "ComponentReady" none r.marks
        (record { condition = "LifecycleReady"; status = is_true; reason = "Ready" } ∷ []) in
    ground (arith, h, kept)

-- The host counts as ready exactly when the component of the clients is not imageless.
abbrev Tells : Turn → ComponentReference → ServiceLifecycle → Type 0
Tells t ref r' =
    ((host_condition r' ≡ some is_false) ↔ IsImageless t ref)
    × ((host_condition r' ≡ some is_true) ↔ (¬ IsImageless t ref))

Tells-imageless :
    (t : Turn) (ref : ComponentReference) (r' : ServiceLifecycle)
    → host_condition r' ≡ some is_false
    → IsImageless t ref
    → Tells t ref r'
Tells-imageless t ref r' h i =
    ((λ _. i, λ _. h), (λ k. absurd (let e = sym h ∙ k in cc), λ free. absurd (free i)))

Tells-imaged :
    (t : Turn) (ref : ComponentReference) (r' : ServiceLifecycle)
    → host_condition r' ≡ some is_true
    → ¬ IsImageless t ref
    → Tells t ref r'
Tells-imaged t ref r' h free =
    ((λ k. absurd (let e = sym h ∙ k in cc), λ i. absurd (free i)), (λ _. free, λ _. h))

client-Tells :
    (t : Turn) (r : ServiceLifecycle)
    → host_condition r ≡ some is_true
    → let (r', o) = reflect_client_component t.resolve r in o ≡ done → Tells t r.spec.client_ref r'
unfolding reflect_client_component status_of
client-Tells t r ready = elim (Read-cases (t.resolve r.spec.client_ref)) [
  | inr (inl e) ↦ λ h. absurd (ground (arith, e, h))
  | inr (inr (m, e)) ↦ λ h. absurd (ground (arith, e, h))
  | inl (c, e) ↦ λ h. elim (Bool-cases (c.image == "")) [
    | inl i ↦
        let kept = status_of-append "ComponentReady" none r.marks (
          record { condition = "ComponentReady"; status = is_false; reason = "ImageMissing" }
          ∷ []) in
        Tells-imageless t r.spec.client_ref (reflect_client_component t.resolve r).0
          (ground (arith, e, h, i, kept)) (c, e, (eq_iff c.image "").0 i)
    | inr i ↦
        let kept =
          status_of-append "ComponentReady" none r.marks
            (record { condition = "ClientReady"; status = is_true; reason = "Ready" } ∷ []) in
        Tells-imaged t r.spec.client_ref (reflect_client_component t.resolve r).0
          (ground (arith, e, h, i, kept, ready))
          (λ there.
            let (c', e', none_) = there in
            absurd (let p = sym e ∙ e' in let q = (eq_iff c'.image "").1 none_ in cc))
  ]
]

after_trigger-Tells :
    (t : Turn) (r : ServiceLifecycle) (q : ServiceLifecycle × Outcome)
    → (q.1 ≡ done → (host_condition q.0 ≡ some is_true) × (q.0.spec ≡ r.spec))
    → let (r', o) = after_trigger t q in o ≡ done → Tells t r.spec.client_ref r'
after_trigger-Tells t r (r₁, done) keeps h =
    let (ready, same) = keeps refl in
    subst
      (λ (s : ServiceLifecycleSpec). Tells t s.client_ref (reflect_client_component t.resolve r₁).0)
      same (client-Tells t r₁ ready h)
after_trigger-Tells t r (r₁, fails e) keeps h = absurd (cc)
after_trigger-Tells t r (r₁, panics) keeps h = absurd (cc)

after_host-Tells :
    (t : Turn) (r r₁ : ServiceLifecycle) (stashed : Option String) (o : Outcome)
    → (o ≡ done → (host_condition r₁ ≡ some is_true) × (r₁.spec ≡ r.spec))
    → let (r', o') = after_host t r₁ stashed o in o' ≡ done → Tells t r.spec.client_ref r'
unfolding desired_trigger
after_host-Tells t r r₁ (some n) done ready =
    let (yes_, same) = ready refl in
    after_trigger-Tells t r (reflect_trigger r₁ t.trigger_error t.trigger) (λ h.
      let (keeps, spec) = trigger_keeps r₁ t.trigger_error t.trigger h in
      (keeps ∙ yes_, spec ∙ same))
after_host-Tells t r r₁ none done ready = λ h. absurd (cc)
after_host-Tells t r r₁ stashed (fails e) ready = λ h. absurd (cc)
after_host-Tells t r r₁ stashed panics ready = λ h. absurd (cc)

-- The host is there, ready and with an image.
abbrev pub IsHosted : Turn → Type 0
IsHosted t =
    (c : HostStatus) × (t.host ≡ some c) × (c.observed.ready_is_true ≡ true) × (c.image ≢ "")

host_there :
    (r : ServiceLifecycle) (e : Option ApiError) (child : Option HostStatus)
    → (reflect_host r e child).outcome ≡ done
    → (c : HostStatus) × (child ≡ some c) × (c.observed.ready_is_true ≡ true) × (c.image ≢ "")
unfolding reflect_host
host_there r (some e) child h = absurd (ground arith)
host_there r none none h = absurd (ground arith)
host_there r none (some c) h = (c, refl, ground (arith, h), ground (arith, h, eq_iff c.image ""))

after_host-done :
    (t : Turn) (r : ServiceLifecycle) (stashed : Option String) (o : Outcome)
    → (after_host t r stashed o).1 ≡ done
    → o ≡ done
after_host-done t r stashed done h = refl
after_host-done t r stashed (fails e) h = h
after_host-done t r stashed panics h = h

-- When reconciling a lifecycle that is not being deleted ends without an error, its host is there,
-- ready and with an image; yet the condition `ComponentReady`, which is meant for the host, is false
-- at the end of the run exactly when the component of the clients is found with no image, and true
-- exactly when it is not.
pub sync_lifecycle-misplaces_iff :
    (t : Turn) (r : ServiceLifecycle)
    → r.finalizer ≡ none
    → (sync_lifecycle t r).1 ≡ done
    → IsHosted t
      × ((host_condition (sync_lifecycle t r).0 ≡ some is_false) ↔ IsImageless t r.spec.client_ref)
      × ((host_condition (sync_lifecycle t r).0 ≡ some is_true)
          ↔ (¬ IsImageless t r.spec.client_ref))
unfolding sync_lifecycle
sync_lifecycle-misplaces_iff t r f =
    let h = reflect_host r t.host_error t.host in
    let open_ : is_some r.finalizer ≡ false = ap is_some f in
    rw open_ (λ ends.
      let hosted = after_host-done t h.lifecycle h.stashed h.outcome ends in
      let tells =
        after_host-Tells t r h.lifecycle h.stashed h.outcome (host_ready r t.host_error t.host)
          ends in
      (host_there r t.host_error t.host hosted, tells.0, tells.1))
