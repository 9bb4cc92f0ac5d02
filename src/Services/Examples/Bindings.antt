-- ===== src/Services/Examples/Bindings.antt =====
-- A binding of two hours, created at the first instant.
use wa8s.Prelude.{
  ℕ, ◌≡◌, ◌↔◌, ◌≢◌, refl, String, true, false, List, [], ◌∷◌, ◌*◌, none, some, ◌==◌, arith, eq_iff,
  nonempty,
}
use wa8s.Prelude.Int.{pos, ◌+ℤ◌, ◌-ℤ◌, ◌≤ℤ◌, ◌<ℤ◌}
use wa8s.Reconcile.{Observed, found}
use wa8s.Apis.Meta.{Context}
use wa8s.Apis.Services.{hour, ServiceBindingSpec}
use wa8s.Apis.Services.Instance.{ServiceInstance, ServiceLifecycleReference}
use wa8s.Services.Binding.{
  Binding, Stash, World, unbind, manage, finalize, after, expiration_requeue,
}
use wa8s.Services.Binding.History.{
  history, history-keeps, expiration_requeue-manage, finalize-manage_iff,
}
use wa8s.Services.Binding.Setup.{Turn, desired_secret}

abbrev binding_spec : ServiceBindingSpec
binding_spec = record {
  ref = record { name = "db" };
  scopes = "read" ∷ [];
  duration = pos (2 * hour);
}

abbrev pub fresh : Binding
fresh = record {
  namespace = "apps";
  name = "app-1";
  labels = [];
  uid = "uid-1";
  created = pos 0;
  spec = binding_spec;
  service_binding_id = "";
  secret_name = "";
  image = "";
  expires_after = pos 0;
  expired = false;
  marks = [];
}

abbrev bound : Binding
bound = record fresh { service_binding_id = "uid-1"; secret_name = "service-binding-uid-1" }

abbrev world_at : ℕ → World
world_at t = record { now = pos t; answer = λ _. none }

abbrev stash : Stash
stash = record {
  address = some "http://db";
  binding_id = some "uid-1";
  instance_id = some "inst-1";
}

abbrev pub ready : Observed
ready = record {
  generation = 1;
  observed_generation = 1;
  ready_is_true = true;
  ready_is_false = false;
}

abbrev pub db : ServiceInstance
db = record {
  metadata = record { namespace = "apps"; name = "db"; annotations = [] };
  spec = record {
    ref = record { kind = "ClusterServiceLifecycle"; namespace = ""; name = "postgres" };
    type = "small";
    tier = "";
    requests = [];
  };
  service_instance_id = "inst-1";
}

abbrev ctx : Context
ctx = record {
  resource = record { namespace = "apps"; name = "app-1"; annotations = [] };
  env_namespace = "";
}

abbrev pub turn_at : ℕ → Turn
turn_at t = record {
  ctx = ctx;
  get_instance = λ namespace name. found (record { observed = ready; instance_ = db });
  get_lifecycle = λ key. found (record { observed = ready; url = "http://db" });
  secret_error = none;
  secret = some (desired_secret fresh);
  world = world_at t;
}

history-keeps_example :
    ((history ((world_at (3 * hour), stash) ∷ []) bound).0.service_binding_id ≡ "uid-1")
    × ((history ((world_at (3 * hour), stash) ∷ []) bound).0.spec ≡ binding_spec)
    × (false ≡ true
        → ((history ((world_at (3 * hour), stash) ∷ []) bound).0.expired ≡ true)
          × ((history ((world_at (3 * hour), stash) ∷ []) bound).1 ≡ []))
history-keeps_example =
    history-keeps ((world_at (3 * hour), stash) ∷ []) bound (nonempty "uid-1" refl)

requeue_of_bound : (expiration_requeue (pos hour) bound).0 ≡ after (pos hour)
unfolding expiration_requeue ◌-ℤ◌ ◌+ℤ◌
requeue_of_bound = refl

expiration_requeue-manage_example :
    (pos (3 * hour) ≤ℤ pos hour +ℤ pos hour
      → ((manage (world_at (3 * hour)) stash bound).calls ≡ [])
        × ((manage (world_at (3 * hour)) stash bound).binding.expired ≡ false))
    × (pos hour +ℤ pos hour <ℤ pos (3 * hour)
        → ((manage (world_at (3 * hour)) stash bound).calls
            ≡ (unbind "http://db" "uid-1" "inst-1", none) ∷ [])
          × ((world_at (3 * hour)).answer (unbind "http://db" "uid-1" "inst-1") ≡ none
              → (manage (world_at (3 * hour)) stash bound).binding.expired ≡ true))
expiration_requeue-manage_example =
    expiration_requeue-manage (pos hour) (pos hour) bound (world_at (3 * hour)) stash "http://db"
      "uid-1" "inst-1" requeue_of_bound (nonempty "uid-1" refl) refl

different : (s t : String) → (s == t) ≡ false → s ≢ t
different s t h e = ground (arith, eq_iff s t)

abbrev own_stash : Stash
own_stash = record {
  address = some "http://db";
  binding_id = some "uid-1";
  instance_id = some "inst-1";
}

finalize-manage_iff_example :
    ((finalize (world_at (3 * hour)) own_stash bound).calls
      ≡ (manage (world_at (3 * hour)) own_stash bound).calls)
    ↔ ◌≡◌ {A = String} "inst-1" "uid-1"
unfolding ◌-ℤ◌
finalize-manage_iff_example =
    finalize-manage_iff (world_at (3 * hour)) own_stash bound "http://db" "inst-1"
      (nonempty "uid-1" refl) refl refl refl

abbrev merge_maps : List (String × String) → List (String × String) → List (String × String)
merge_maps xs ys = xs

abbrev postgres : ServiceLifecycleReference
postgres = record { kind = "ClusterServiceLifecycle"; namespace = ""; name = "postgres" }
