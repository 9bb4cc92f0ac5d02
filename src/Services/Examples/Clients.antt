-- ===== src/Services/Examples/Clients.antt =====
-- A client of two hours that renews half an hour ahead, and one that cannot keep its binding.
use wa8s.Prelude.{ℕ, ◌≡◌, ◌≤◌, refl, String, true, false, [], ◌∷◌, ◌++◌, ◌*◌, ◌⊎◌, List, map, arith}
use wa8s.Prelude.Int.{pos, ltb_ℤ, ◌+ℤ◌, ◌-ℤ◌, wrap64, ◌<ℤ◌}
use wa8s.Apis.Services.{hour, minute}
use wa8s.Services.Client.{Child, Client, Calls, relabel, new_child, desired_children}
use wa8s.Services.Client.Stamping.{live}
use wa8s.Services.Client.Choosing.{IsBefore, Kept, IsServed, IsFresh, desired_children-stamps}
use wa8s.Services.Client.Renewal.{Fits, desired_children_settle, desired_children_thrash}

abbrev calls : Calls
calls = record {
  merge_maps = λ xs ys. xs ++ ys;
  before = ltb_ℤ;
  equal_ref = λ a b. true;
  equal_scopes = λ a b. true;
  equal_duration = λ a b. true;
}

abbrev renewing : ℕ → Client
renewing renew_before = record {
  namespace = "apps";
  name = "app";
  labels = [];
  spec = record {
    ref = record { name = "db" };
    scopes = "read" ∷ [];
    duration = pos (2 * hour);
    renew_before = pos renew_before;
    renew_before_percentage = pos 0;
  };
  image = "";
  service_binding_id = "";
  renews_after = pos 0;
  expires_after = pos 0;
  marks = [];
}

abbrev binding : String → ℕ → Child
binding uid created = record {
  namespace = "apps";
  name = "app-1";
  generate_name = "app-";
  uid = uid;
  created = pos created;
  labels = [];
  spec = record { ref = record { name = "db" }; scopes = "read" ∷ []; duration = pos (2 * hour) };
  observed = record {
    generation = 1;
    observed_generation = 1;
    ready_is_true = true;
    ready_is_false = false;
  };
  image = "registry/app@sha256:1";
  service_binding_id = uid;
  expires_after = pos (2 * hour);
  expired = false;
}

renewing-Fits : (rb : ℕ) → rb ≤ 2 * hour → Fits (renewing rb) (2 * hour) rb
renewing-Fits rb h = record {
  duration = refl;
  renew_before = refl;
  duration_small = omega arith;
  renew_before_small = omega arith;
}

in_order : IsBefore calls
in_order s t = ground arith

desired_children-stamps_example :
    (kept : List Child) × Kept calls (pos 5) (renewing (30 * minute)) (binding "a" 1 ∷ []) kept
    × ((IsServed calls (pos 5) (renewing (30 * minute)) kept
          × (desired_children calls (pos 5) (renewing (30 * minute)) (binding "a" 1 ∷ []) ≡ kept))
        ⊎ ((¬ IsServed calls (pos 5) (renewing (30 * minute)) kept)
            × ((k : Child) × IsFresh calls (renewing (30 * minute)) k
                × (desired_children calls (pos 5) (renewing (30 * minute)) (binding "a" 1 ∷ [])
                    ≡ kept ++ (k ∷ [])))))
desired_children-stamps_example =
    desired_children-stamps calls (pos 5) (renewing (30 * minute)) (binding "a" 1 ∷ []) in_order

before_renewal : pos 5 <ℤ pos 2 +ℤ wrap64 (pos (2 * hour) -ℤ pos (30 * minute))
unfolding wrap64 ◌-ℤ◌ ◌+ℤ◌
before_renewal = ground arith

desired_children_settle_example :
    desired_children calls (pos 5) (renewing (30 * minute)) (binding "a" 1 ∷ binding "b" 2 ∷ [])
    ≡ map
        (relabel calls (renewing (30 * minute)))
        (live (pos 5) (renewing (30 * minute)) (binding "a" 1 ∷ []))
      ++ (relabel calls (renewing (30 * minute)) (binding "b" 2) ∷ [])
desired_children_settle_example =
    desired_children_settle calls (pos 5) (renewing (30 * minute)) (2 * hour) (30 * minute)
      (binding "a" 1 ∷ []) (binding "b" 2) (renewing-Fits (30 * minute) (omega arith)) refl
      (refl, tt) refl refl refl before_renewal

desired_children_thrash_example :
    desired_children calls (pos 5) (renewing (2 * hour)) (binding "a" 1 ∷ binding "b" 2 ∷ [])
    ≡ map
        (relabel calls (renewing (2 * hour)))
        (live (pos 5) (renewing (2 * hour)) (binding "a" 1 ∷ binding "b" 2 ∷ []))
      ++ (new_child calls (renewing (2 * hour)) ∷ [])
desired_children_thrash_example =
    desired_children_thrash calls (pos 5) (renewing (2 * hour)) (2 * hour) (2 * hour)
      (binding "a" 1 ∷ binding "b" 2 ∷ []) (renewing-Fits (2 * hour) (omega arith)) (omega arith)
      (ground arith, (ground arith, tt))
