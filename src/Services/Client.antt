-- ===== src/Services/Client.antt =====
-- integrations/services/internal/controllers/serviceclient_controller.go: the bindings that a client
-- wants, its status, and its renewal.
pub mod Stamping
pub mod Renewal
pub mod Choosing
use Prim.Native.String
use wa8s.Prelude.{
  ℕ, String, Bool, true, false, not, ◌&&◌, ◌||◌, eqb, List, [], ◌∷◌, ◌++◌, ◌*◌, Option, none, some,
  if◌then◌else◌, ◌==◌,
}
use wa8s.Prelude.Int.{ℤ, pos, negsuc, ◌+ℤ◌, ◌-ℤ◌, ltb_ℤ, wrap64}
use wa8s.Reconcile.{
  Mark, is_true, is_false, is_unknown, ApiError, Outcome, done, fails, durable, transient,
  generation_mismatch, Observed, marked,
}
use wa8s.Apis.Services.{ServiceInstanceReference, ServiceBindingSpec, ServiceClientSpec, minute}
use wa8s.Services.Binding.{Requeue, after, at_once}

abbrev pub Labels : Type 0
Labels = List (String × String)

-- A service binding as the client's controller reads and writes it.
pub record Child : Type 0 where
  pub namespace : String
  pub name : String
  pub generate_name : String
  pub uid : String
  pub created : ℤ
  pub labels : Labels
  pub spec : ServiceBindingSpec
  pub observed : Observed
  pub image : String
  pub service_binding_id : String
  pub expires_after : ℤ
  pub expired : Bool

-- The zero `metav1.Time`, the first of January of the year 1, in nanoseconds of the Unix epoch.
abbrev pub zero_time : ℤ
zero_time = negsuc 62135596799999999999

pub record Client : Type 0 where
  pub namespace : String
  pub name : String
  pub labels : Labels
  pub spec : ServiceClientSpec
  pub image : String
  pub service_binding_id : String
  pub renews_after : ℤ
  pub expires_after : ℤ
  pub marks : List Mark

-- What the controller calls of other packages: `reconcilers.MergeMaps`, `metav1.Time.Before`, and
-- `equality.Semantic.DeepEqual` at the three fields that it compares.
pub record Calls : Type 0 where
  pub merge_maps : Labels → Labels → Labels
  pub before : ℤ → ℤ → Bool
  pub equal_ref : ServiceInstanceReference → ServiceInstanceReference → Bool
  pub equal_scopes : List String → List String → Bool
  pub equal_duration : ℤ → ℤ → Bool

abbrev pub client_labels : Calls → Client → Labels
client_labels calls r =
    calls.merge_maps r.labels (("services.wa8s.reconciler.io/service-client", r.name) ∷ [])

abbrev pub relabel : Calls → Client → Child → Child
relabel calls r c = record c { labels = client_labels calls r }

-- An expired child, or one that is older than the duration and five minutes, is pruned.
abbrev pub is_pruned : ℤ → Client → Child → Bool
is_pruned now r c =
    c.expired || ltb_ℤ (c.created +ℤ wrap64 (r.spec.duration +ℤ pos (5 * minute))) now

-- The later of the current child and another; of two that are as old the first stays.
abbrev pub newer : Calls → Option Child → Child → Option Child
newer calls none c = some c
newer calls (some k) c = if calls.before k.created c.created then some c else some k

-- The loop over the known children.
unfoldable pub collect :
    Calls → ℤ → Client → Option Child → List Child → List Child → Option Child × List Child
collect calls now r current desired [] = (current, desired)
collect calls now r current desired (c ∷ cs) =
    let kept =
      collect calls now r (newer calls current (relabel calls r c))
        (desired ++ (relabel calls r c ∷ [])) cs in
    let pruned = collect calls now r current desired cs in
    if is_pruned now r c then pruned else kept

abbrev pub in_sync : Calls → ℤ → Client → Option Child → Bool
in_sync calls now r none = false
in_sync calls now r (some k) =
    calls.equal_ref k.spec.ref r.spec.ref
    && calls.equal_scopes k.spec.scopes r.spec.scopes
    && calls.equal_duration k.spec.duration r.spec.duration
    && ltb_ℤ now (k.created +ℤ wrap64 (r.spec.duration -ℤ r.spec.renew_before))

abbrev nothing_observed : Observed
nothing_observed = record {
  generation = 0;
  observed_generation = 0;
  ready_is_true = false;
  ready_is_false = false;
}

abbrev pub wanted_spec : Client → ServiceBindingSpec
wanted_spec r = record { ref = r.spec.ref; scopes = r.spec.scopes; duration = r.spec.duration }

-- The new `current`, with the zero values of what the literal leaves out.
abbrev pub new_child : Calls → Client → Child
new_child calls r = record {
  namespace = r.namespace;
  name = "";
  generate_name = String.◌++◌ r.name "-";
  uid = "";
  created = zero_time;
  labels = client_labels calls r;
  spec = wanted_spec r;
  observed = nothing_observed;
  image = "";
  service_binding_id = "";
  expires_after = zero_time;
  expired = false;
}

-- `StampServiceBinding`, `DesiredChildren`
unfoldable pub desired_children : Calls → ℤ → Client → List Child → List Child
unfolding collect
desired_children calls now r known =
    let (current, desired) = collect calls now r none [] known in
    if in_sync calls now r current then desired else desired ++ (new_child calls r ∷ [])

-- `IdentifyChild`: a child whose creation time is the zero time is the new one.
abbrev pub identify_child : Child → String
identify_child c =
    if ltb_ℤ c.created zero_time || ltb_ℤ zero_time c.created then c.uid else "current"

-- `MergeBeforeUpdate`: the spec of an existing binding is never updated.
abbrev pub merge_child : Child → Child → Child
merge_child current desired = record current { labels = desired.labels }

-- The loop over `result.Children`, whose children may be nil.
unfoldable pub pick_current : Calls → Option Child → List (Option Child) → Option Child
pick_current calls current [] = current
pick_current calls current (none ∷ cs) = pick_current calls current cs
pick_current calls current (some c ∷ cs) = pick_current calls (newer calls current c) cs

abbrev reflect_current : Client → Child → Client × Outcome
reflect_current parent c =
    let p = record parent {
      renews_after = c.created +ℤ wrap64 (parent.spec.duration -ℤ parent.spec.renew_before);
    } in
    if not (eqb c.observed.generation c.observed.observed_generation)
    then (
      record p { marks = marked p.marks "Bound" is_unknown "Blocked" },
      fails generation_mismatch,
    )
    else if not c.observed.ready_is_true
    then (
      record p {
        marks =
            marked p.marks "Bound" (if c.observed.ready_is_false then is_false else is_unknown)
              "NotReady";
      },
      fails durable,
    )
    else if c.image == ""
    then (record p { marks = marked p.marks "Bound" is_false "ImageMissing" }, fails durable)
    else (
      record p {
        marks = marked p.marks "Bound" is_true "Ready";
        image = c.image;
        service_binding_id = c.service_binding_id;
        expires_after = c.expires_after;
      },
      done,
    )

-- `StampServiceBinding`, `ReflectChildrenStatusOnParentWithError`: of the component's status only
-- the image is kept here.
unfoldable pub reflect_children :
    Calls → Client → Option ApiError → List (Option Child) → Client × Outcome
unfolding pick_current
reflect_children calls parent (some e) children =
    if e.is_invalid
    then (
      record parent { marks = marked parent.marks "Bound" is_false "Invalid" },
      fails (transient e.text),
    )
    else (
      record parent { marks = marked parent.marks "Bound" is_unknown "Unknown" },
      fails (transient e.text),
    )
reflect_children calls parent none children = elim (pick_current calls none children) [
  | none ↦ (record parent { marks = marked parent.marks "Bound" is_false "Missing" }, fails durable)
  | some c ↦ reflect_current parent c
]

-- `RenewRequeue`
unfoldable pub renew_requeue : ℤ → Client → Requeue
renew_requeue now r =
    let wait = r.renews_after -ℤ now in if ltb_ℤ (pos 0) wait then after wait else at_once
