-- ===== src/Services/Client/Choosing.antt =====
-- integrations/services/internal/controllers/serviceclient_controller.go: what the desired bindings of
-- a client are, told from times and specs.
use wa8s.Prelude.{
  ◌≡◌, refl, sym, ap, ◌∙◌, ◌↔◌, ◌⊎◌, inl, inr, true, false, List, [], ◌∷◌, ◌++◌, ◌*◌, map, Option,
  none, some, arith, Bool-cases, All, Option-cases,
}
use mathlib.Core.Path.{subst}
use wa8s.Prelude.Int.{ℤ, pos, ◌+ℤ◌, ◌-ℤ◌, ◌≤ℤ◌, ◌<ℤ◌, wrap64}
use wa8s.Reconcile.{some_injective}
use wa8s.Apis.Services.{minute}
use wa8s.Services.Client.{
  Child, Client, Calls, zero_time, relabel, is_pruned, newer, in_sync, new_child, desired_children,
}
use wa8s.Services.Client.Stamping.{live, newest, desired_children_lem}
use wa8s.Services.Client.Renewal.{IfSome, newest-IfSome, newest-append}

-- `metav1.Time.Before` is the strict order of the instants.
abbrev pub IsBefore : Calls → Type 0
IsBefore calls = (s t : ℤ) → (calls.before s t ≡ true) ↔ (s <ℤ t)

-- A binding that is kept: it is not expired, and it is not older than the duration and five minutes.
abbrev pub IsLive : ℤ → Client → Child → Type 0
IsLive now r c =
    (c.expired ≡ false) × (now ≤ℤ c.created +ℤ wrap64 (r.spec.duration +ℤ pos (5 * minute)))

-- A binding with the labels of the client.
abbrev pub with_labels : Calls → Client → Child → Child
with_labels calls r c = record c {
  labels = calls.merge_maps r.labels (("services.wa8s.reconciler.io/service-client", r.name) ∷ []);
}

-- The bindings that are kept, in their order, and those that are not.
pub data Kept (calls : Calls) (now : ℤ) (r : Client) : List Child → List Child → Type 0 where
  no_more : Kept calls now r [] []
  keep :
      {c : Child} {cs kept : List Child}
      → IsLive now r c
      → Kept calls now r cs kept
      → Kept calls now r (c ∷ cs) (with_labels calls r c ∷ kept)
  prune :
      {c : Child} {cs kept : List Child}
      → ¬ IsLive now r c
      → Kept calls now r cs kept
      → Kept calls now r (c ∷ cs) kept

-- The first of the newest bindings of a list: those before it are older, and those after it are not
-- newer.
pub record IsNewest (kept : List Child) (k : Child) : Type 0 where
  pub before : List Child
  pub after : List Child
  pub split : kept ≡ before ++ (k ∷ after)
  pub older : All (λ c. c.created <ℤ k.created) before
  pub no_newer : All (λ c. c.created ≤ℤ k.created) after

-- A binding has what the client wants, and its renewal is not due.
abbrev pub Serves : Calls → ℤ → Client → Child → Type 0
Serves calls now r k =
    ((calls.equal_ref k.spec.ref r.spec.ref ≡ true)
      × (calls.equal_scopes k.spec.scopes r.spec.scopes ≡ true))
    × ((calls.equal_duration k.spec.duration r.spec.duration ≡ true)
        × (now <ℤ k.created +ℤ wrap64 (r.spec.duration -ℤ r.spec.renew_before)))

-- The binding that is asked for: it has not been created, and it has the spec and the labels of the
-- client.
abbrev pub IsFresh : Calls → Client → Child → Type 0
IsFresh calls r k =
    ((k.namespace ≡ r.namespace) × (k.created ≡ zero_time))
    × ((k.spec ≡ record { ref = r.spec.ref; scopes = r.spec.scopes; duration = r.spec.duration })
        × (k ≡ with_labels calls r k))

is_pruned-IsLive : (now : ℤ) (r : Client) (c : Child) → (is_pruned now r c ≡ false) ↔ IsLive now r c
is_pruned-IsLive now r c = ground arith

live-Kept :
    (calls : Calls) (now : ℤ) (r : Client) (cs : List Child)
    → Kept calls now r cs (map (relabel calls r) (live now r cs))
unfolding live
live-Kept calls now r [] = no_more
live-Kept calls now r (c ∷ cs) = elim (Bool-cases (is_pruned now r c)) [
  | inl e ↦ rw e (
      prune (λ h. absurd (let p = (is_pruned-IsLive now r c).1 h in cc)) (live-Kept calls now r cs))
  | inr e ↦ rw e (keep ((is_pruned-IsLive now r c).0 e) (live-Kept calls now r cs))
]

IsNewest-head :
    (c : Child) (cs : List Child) → All (λ d. d.created ≤ℤ c.created) cs → IsNewest (c ∷ cs) c
IsNewest-head c cs all = record {
  before = [];
  after = cs;
  split = refl;
  older = tt;
  no_newer = all;
}

IsNewest-cons :
    (c m : Child) (cs : List Child) → c.created <ℤ m.created → IsNewest cs m → IsNewest (c ∷ cs) m
IsNewest-cons c m cs later n = record {
  before = c ∷ n.before;
  after = n.after;
  split = ap (λ (t : List Child). c ∷ t) n.split;
  older = (later, n.older);
  no_newer = n.no_newer;
}

-- The newest of a list from a candidate on: the candidate stays, or a newer one is found.
abbrev Goes : Calls → Child → List Child → Type 0
Goes calls k cs =
    ((newest calls (some k) cs ≡ some k) × All (λ c. c.created ≤ℤ k.created) cs)
    ⊎ ((m : Child) × (newest calls (some k) cs ≡ some m) × IsNewest cs m × (k.created <ℤ m.created))

newest-Goes : (calls : Calls) → IsBefore calls → (k : Child) (cs : List Child) → Goes calls k cs
unfolding newest
newest-Goes calls order k [] = inl (refl, tt)
newest-Goes calls order k (c ∷ cs) =
    let lt = order k.created c.created in
    elim (Bool-cases (calls.before k.created c.created)) [
      | inl e ↦ elim (newest-Goes calls order c cs) [
        | inl (stays, all) ↦ inr (c, rw e stays, (IsNewest-head c cs all), lt.0 e)
        | inr (m, found, n, later) ↦
            inr (m, rw e found, (IsNewest-cons c m cs later n), omega (arith, lt.0 e, later))
      ]
      | inr e ↦
          let ge : c.created ≤ℤ k.created = ground (arith, e, lt) in
          elim (newest-Goes calls order k cs) [
            | inl (stays, all) ↦ inl (rw e stays, (ge, all))
            | inr (m, found, n, later) ↦
                inr (m, rw e found, (IsNewest-cons c m cs (omega (arith, ge, later)) n), later)
          ]
    ]

newest-IsNewest :
    (calls : Calls)
    → IsBefore calls
    → (cs : List Child) (k : Child) → newest calls none cs ≡ some k
    → IsNewest cs k
unfolding newest
newest-IsNewest calls order [] k e = absurd (ground arith)
newest-IsNewest calls order (c ∷ cs) k e = elim (newest-Goes calls order c cs) [
  | inl (stays, all) ↦
      subst (λ (m : Child). IsNewest (c ∷ cs) m) (some_injective (sym stays ∙ e))
        (IsNewest-head c cs all)
  | inr (m, found, n, later) ↦
      subst (λ (m' : Child). IsNewest (c ∷ cs) m') (some_injective (sym found ∙ e))
        (IsNewest-cons c m cs later n)
]

newer-later :
    (calls : Calls)
    → IsBefore calls
    → (o : Option Child) (k : Child) → IfSome (λ c. c.created <ℤ k.created) o
    → newer calls o k ≡ some k
newer-later calls order none k h = refl
newer-later calls order (some c) k h = rw ((order c.created k.created).1 h)

newest-stays :
    (calls : Calls)
    → IsBefore calls
    → (k : Child) (cs : List Child) → All (λ c. c.created ≤ℤ k.created) cs
    → newest calls (some k) cs ≡ some k
unfolding newest
newest-stays calls order k [] h = refl
newest-stays calls order k (c ∷ cs) (le, h) = elim (Bool-cases (calls.before k.created c.created)) [
  | inl e ↦ absurd (omega (arith, (order k.created c.created).0 e, le))
  | inr e ↦ rw e (newest-stays calls order k cs h)
]

IsNewest-newest :
    (calls : Calls)
    → IsBefore calls
    → (kept : List Child) (k : Child) → IsNewest kept k
    → newest calls none kept ≡ some k
unfolding newest
IsNewest-newest calls order kept k n =
    let first = newest calls none n.before in
    let old = newest-IfSome (λ c. c.created <ℤ k.created) calls none n.before tt n.older in
    ap (newest calls none) n.split
    ∙ newest-append calls none n.before (k ∷ n.after)
    ∙ ap (λ (o : Option Child). newest calls o n.after) (newer-later calls order first k old)
    ∙ newest-stays calls order k n.after n.no_newer

in_sync-Serves :
    (calls : Calls) (now : ℤ) (r : Client) (k : Child)
    → (in_sync calls now r (some k) ≡ true) ↔ Serves calls now r k
in_sync-Serves calls now r k = ground arith

-- Some binding is the newest of those that are kept, and serves the client.
abbrev pub IsServed : Calls → ℤ → Client → List Child → Type 0
IsServed calls now r kept = (k : Child) × IsNewest kept k × Serves calls now r k

in_sync-IsServed :
    (calls : Calls)
    → IsBefore calls
    → (now : ℤ) (r : Client) (kept : List Child)
    → (in_sync calls now r (newest calls none kept) ≡ true) ↔ IsServed calls now r kept
in_sync-IsServed calls order now r kept = (
  λ h. elim (Option-cases (newest calls none kept)) [
    | inl e ↦ absurd (let p = rw e at h in cc)
    | inr (k, e) ↦
        (k, newest-IsNewest calls order kept k e, (in_sync-Serves calls now r k).0 (rw e at h))
  ],
  λ s.
      let (k, n, serves) = s in
      rw (IsNewest-newest calls order kept k n) ((in_sync-Serves calls now r k).1 serves),
)

-- Where times are compared by their order, the desired bindings are the known ones that are neither
-- expired nor older than the duration and five minutes, in their order and with the labels of the
-- client. If the first of the newest of them refers to the client's instance, with its scopes and
-- its duration, and its renewal is not due, these are all; otherwise one more is asked for, which
-- is not yet created and has the spec and the labels of the client.
pub desired_children-stamps :
    (calls : Calls) (now : ℤ) (r : Client) (known : List Child)
    → IsBefore calls
    → (kept : List Child) × Kept calls now r known kept
      × ((IsServed calls now r kept × (desired_children calls now r known ≡ kept))
          ⊎ ((¬ IsServed calls now r kept)
              × ((k : Child) × IsFresh calls r k
                  × (desired_children calls now r known ≡ kept ++ (k ∷ [])))))
desired_children-stamps calls now r known order =
    let kept = map (relabel calls r) (live now r known) in
    let iff = in_sync-IsServed calls order now r kept in
    (
      kept,
      live-Kept calls now r known,
      elim (Bool-cases (in_sync calls now r (newest calls none kept))) [
        | inl e ↦ inl (iff.0 e, desired_children_lem calls now r known ∙ rw e refl)
        | inr e ↦ inr (
          λ s. absurd (let p = iff.1 s in cc),
          (
            new_child calls r,
            ((refl, refl), (refl, refl)),
            desired_children_lem calls now r known ∙ rw e refl,
          ),
        )
      ],
    )
