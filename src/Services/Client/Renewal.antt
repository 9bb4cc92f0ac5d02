-- ===== src/Services/Client/Renewal.antt =====
-- When a client's bindings settle, and when every reconciliation asks for another one.
use wa8s.Prelude.{
  ℕ, ◌≡◌, refl, ◌∙◌, true, false, List, [], ◌∷◌, ◌++◌, map, Option, none, some, arith, Bool-cases,
  inl, inr, All, ◌*◌, ◌≤◌, ◌<◌, ◌^◌, ◌+◌,
}
use mathlib.Core.List.{map-append}
use wa8s.Prelude.Int.{ℤ, pos, ◌+ℤ◌, ◌-ℤ◌, ◌≤ℤ◌, ◌<ℤ◌, ltb_ℤ, wrap64, wrap64_of_lt, +ℤ_parts}
use wa8s.Apis.Services.{minute}
use wa8s.Services.Client.{
  Child, Client, Calls, relabel, is_pruned, newer, in_sync, new_child, desired_children,
}
use wa8s.Services.Client.Stamping.{live, newest, desired_children_lem}

-- A client whose durations are what `int64` holds without wrapping.
pub record Fits (r : Client) (d rb : ℕ) : Type 0 where
  pub duration : r.spec.duration ≡ pos d
  pub renew_before : r.spec.renew_before ≡ pos rb
  pub duration_small : d + 5 * minute < 2 ^ 63
  pub renew_before_small : rb < 2 ^ 63

wrap64_nonpos : (d rb : ℕ) → d ≤ rb → rb < 2 ^ 63 → wrap64 (pos d -ℤ pos rb) ≤ℤ pos 0
unfolding wrap64 ◌-ℤ◌
wrap64_nonpos d rb h small = ground arith

wrap64_le : (d rb : ℕ) → d < 2 ^ 63 → rb < 2 ^ 63 → wrap64 (pos d -ℤ pos rb) ≤ℤ pos d
unfolding wrap64 ◌-ℤ◌
wrap64_le d rb h small = ground arith

pos-add : (a b : ℕ) → pos a +ℤ pos b ≡ pos (a + b)
unfolding ◌+ℤ◌
pos-add a b = ground arith

-- How long after its creation a binding is renewed, and when it is pruned.
abbrev renewal : Client → ℤ
renewal r = wrap64 (r.spec.duration -ℤ r.spec.renew_before)

module _ (r : Client) (d rb : ℕ) (f : Fits r d rb) where
  renewal_nonpos : d ≤ rb → renewal r ≤ℤ pos 0
  renewal_nonpos h = rw (f.duration, f.renew_before) (wrap64_nonpos d rb h f.renew_before_small)

  renewal_le : renewal r ≤ℤ pos d
  renewal_le =
      rw (f.duration, f.renew_before)
        (wrap64_le d rb (omega (arith, f.duration_small)) f.renew_before_small)

  grace : wrap64 (r.spec.duration +ℤ pos (5 * minute)) ≡ pos (d + 5 * minute)
  grace = rw (f.duration, pos-add d (5 * minute)) (wrap64_of_lt (d + 5 * minute) f.duration_small)

passed : (now created w : ℤ) → created ≤ℤ now → w ≤ℤ pos 0 → ltb_ℤ now (created +ℤ w) ≡ false
passed now created w past h = ground (arith, +ℤ_parts created w)

not_pruned :
    (now created w : ℤ) (n m : ℕ)
    → now <ℤ created +ℤ w
    → w ≤ℤ pos n
    → n ≤ m
    → ltb_ℤ (created +ℤ pos m) now ≡ false
not_pruned now created w n m h k le = ground (arith, +ℤ_parts created w, +ℤ_parts created (pos m))

due_true : (a b : ℤ) → a <ℤ b → ltb_ℤ a b ≡ true
due_true a b h = ground arith

not_in_sync :
    (calls : Calls) (r : Client) (now : ℤ) (c : Child)
    → renewal r ≤ℤ pos 0
    → c.created ≤ℤ now
    → in_sync calls now r (some c) ≡ false
not_in_sync calls r now c h past = ground (arith, passed now c.created (renewal r) past h)

live-All :
    (P : Child → Type 0) (now : ℤ) (r : Client) (cs : List Child) → All P cs → All P (live now r cs)
unfolding live
live-All P now r [] h = tt
live-All P now r (c ∷ cs) (p, h) = ground (arith, live-All P now r cs h)

relabel-All :
    (P : ℤ → Type 0) (calls : Calls) (r : Client) (cs : List Child)
    → All (λ c. P c.created) cs
    → All (λ c. P c.created) (map (relabel calls r) cs)
relabel-All P calls r [] h = tt
relabel-All P calls r (c ∷ cs) (p, h) = (p, relabel-All P calls r cs h)

abbrev pub IfSome : (Child → Type 0) → Option Child → Type 0
IfSome P none = Unit
IfSome P (some c) = P c

newer-IfSome :
    (P : Child → Type 0) (calls : Calls) (o : Option Child) (c : Child)
    → IfSome P o
    → P c
    → IfSome P (newer calls o c)
newer-IfSome P calls none c h p = p
newer-IfSome P calls (some k) c h p = elim (Bool-cases (calls.before k.created c.created)) [
  | inl later ↦ rw later p
  | inr earlier ↦ rw earlier h
]

pub newest-IfSome :
    (P : Child → Type 0) (calls : Calls) (o : Option Child) (cs : List Child)
    → IfSome P o
    → All P cs
    → IfSome P (newest calls o cs)
unfolding newest
newest-IfSome P calls o [] h a = h
newest-IfSome P calls o (c ∷ cs) h (p, a) =
    newest-IfSome P calls (newer calls o c) cs (newer-IfSome P calls o c h p) a

never_in_sync :
    (calls : Calls) (r : Client) (now : ℤ) (o : Option Child)
    → renewal r ≤ℤ pos 0
    → IfSome (λ c. c.created ≤ℤ now) o
    → in_sync calls now r o ≡ false
never_in_sync calls r now none h past = refl
never_in_sync calls r now (some c) h past = not_in_sync calls r now c h past

-- A client whose durations fit `int64` and whose renewal period is its duration or longer asks for
-- one more binding at every reconciliation, whatever bindings exist by then that were created up to
-- now: the desired ones are those that are kept and a new one.
pub desired_children_thrash :
    (calls : Calls) (now : ℤ) (r : Client) (d rb : ℕ) (known : List Child)
    → Fits r d rb
    → d ≤ rb
    → All (λ c. c.created ≤ℤ now) known
    → desired_children calls now r known
      ≡ map (relabel calls r) (live now r known) ++ (new_child calls r ∷ [])
desired_children_thrash calls now r d rb known f h past =
    let kept = map (relabel calls r) (live now r known) in
    let old =
      relabel-All (λ t. t ≤ℤ now) calls r (live now r known)
        (live-All (λ c. c.created ≤ℤ now) now r known past) in
    let stale =
      never_in_sync calls r now (newest calls none kept) (renewal_nonpos r d rb f h)
        (newest-IfSome (λ c. c.created ≤ℤ now) calls none kept tt old) in
    desired_children_lem calls now r known ∙ rw stale refl

live-append :
    (now : ℤ) (r : Client) (xs ys : List Child)
    → live now r (xs ++ ys) ≡ live now r xs ++ live now r ys
unfolding live
live-append now r [] ys = refl
live-append now r (x ∷ xs) ys = ground (arith, live-append now r xs ys)

pub newest-append :
    (calls : Calls) (o : Option Child) (xs ys : List Child)
    → newest calls o (xs ++ ys) ≡ newest calls (newest calls o xs) ys
unfolding newest
newest-append calls o [] ys = refl
newest-append calls o (x ∷ xs) ys = newest-append calls (newer calls o x) xs ys

newer_wins :
    (calls : Calls) (o : Option Child) (k : Child)
    → IfSome (λ c. calls.before c.created k.created ≡ true) o
    → newer calls o k ≡ some k
newer_wins calls none k h = refl
newer_wins calls (some c) k h = rw h

-- A client whose durations fit `int64` asks for no further binding while its last one is not
-- expired, is newer than the others, has the spec of the client and is before its renewal: the
-- desired bindings are the ones that are kept and this one.
pub desired_children_settle :
    (calls : Calls) (now : ℤ) (r : Client) (d rb : ℕ) (known : List Child) (k : Child)
    → Fits r d rb
    → k.expired ≡ false
    → All (λ c. calls.before c.created k.created ≡ true) known
    → calls.equal_ref k.spec.ref r.spec.ref ≡ true
    → calls.equal_scopes k.spec.scopes r.spec.scopes ≡ true
    → calls.equal_duration k.spec.duration r.spec.duration ≡ true
    → now <ℤ k.created +ℤ wrap64 (r.spec.duration -ℤ r.spec.renew_before)
    → desired_children calls now r (known ++ (k ∷ []))
      ≡ map (relabel calls r) (live now r known) ++ (relabel calls r k ∷ [])
unfolding live newest
desired_children_settle calls now r d rb known k f fresh newest_k ref scopes duration due =
    let kept_k : is_pruned now r k ≡ false =
      rw (fresh, grace r d rb f)
        (not_pruned now k.created (renewal r) d (d + 5 * minute) due (renewal_le r d rb f)
          (omega arith)) in
    let old = map (relabel calls r) (live now r known) in
    let older =
      newest-IfSome (λ c. calls.before c.created k.created ≡ true) calls none old tt
        (relabel-All (λ t. calls.before t k.created ≡ true) calls r (live now r known)
          (live-All (λ c. calls.before c.created k.created ≡ true) now r known newest_k)) in
    let kept : map (relabel calls r) (live now r (known ++ (k ∷ [])))
        ≡ old ++ (relabel calls r k ∷ []) =
      rw (live-append now r known (k ∷ []), kept_k) (map-append _ _ _) in
    let current : newest calls none (old ++ (relabel calls r k ∷ [])) ≡ some (relabel calls r k) =
      newest-append calls none old (relabel calls r k ∷ [])
      ∙ newer_wins calls (newest calls none old) (relabel calls r k) older in
    let synced : in_sync calls now r (some (relabel calls r k)) ≡ true =
      rw (ref, scopes, duration) (due_true now _ due) in
    desired_children_lem calls now r (known ++ (k ∷ [])) ∙ rw (kept, current, synced) refl
