-- ===== src/Services/Client/Stamping.antt =====
-- integrations/services/internal/controllers/serviceclient_controller.go: the loop over the known
-- bindings and a description of it without an accumulator.
use wa8s.Prelude.{
  ◌≡◌, sym, ap, ◌∙◌, List, [], ◌∷◌, ◌++◌, map, Option, none, if◌then◌else◌, Bool-cases, inl, inr,
}
use mathlib.Core.List.{append_assoc, append-nil}
use wa8s.Prelude.Int.{ℤ}
use wa8s.Services.Client.{
  Child, Client, Calls, relabel, is_pruned, newer, collect, in_sync, new_child, desired_children,
}

-- The children that are kept, in their order.
unfoldable pub live : ℤ → Client → List Child → List Child
live now r [] = []
live now r (c ∷ cs) = let rest = live now r cs in if is_pruned now r c then rest else c ∷ rest

-- The newest of a list of children, from a first candidate on.
unfoldable pub newest : Calls → Option Child → List Child → Option Child
newest calls current [] = current
newest calls current (c ∷ cs) = newest calls (newer calls current c) cs

collect_lem :
    (calls : Calls) (now : ℤ) (r : Client) (current : Option Child) (desired cs : List Child)
    → collect calls now r current desired cs ≡ (
      newest calls current (map (relabel calls r) (live now r cs)),
      desired ++ map (relabel calls r) (live now r cs),
    )
unfolding collect live newest
collect_lem calls now r current desired [] =
    ap (λ (d : List Child). (current, d)) (sym (append-nil desired))
collect_lem calls now r current desired (c ∷ cs) = elim (Bool-cases (is_pruned now r c)) [
  | inl pruned ↦ rw pruned (collect_lem calls now r current desired cs)
  | inr kept ↦ rw kept (
      collect_lem calls now r (newer calls current (relabel calls r c))
        (desired ++ (relabel calls r c ∷ [])) cs
      ∙ ap
          (λ (d : List Child). (
            newest calls (newer calls current (relabel calls r c))
                (map (relabel calls r) (live now r cs)),
            d,
          ))
          (append_assoc desired (relabel calls r c ∷ []) _))
]

-- The desired bindings are the known ones that are neither expired nor outdated, relabelled and in
-- their order, and one new binding of the client's spec unless the newest of them is in sync.
pub desired_children_lem :
    (calls : Calls) (now : ℤ) (r : Client) (known : List Child)
    → let kept = map (relabel calls r) (live now r known) in
      desired_children calls now r known ≡ (
        if in_sync calls now r (newest calls none kept)
        then kept
        else kept ++ (new_child calls r ∷ []))
unfolding desired_children
desired_children_lem calls now r known = rw (collect_lem calls now r none [] known)
