-- ===== src/Apis/Examples/Services.antt =====
-- Service clients, bindings, instances and definitions at their webhooks.
use wa8s.Prelude.{
  ◌≡◌, ◌↔◌, refl, String, Bool, true, false, ◌&&◌, List, [], ◌∷◌, ◌*◌, ◌==◌, eqb, arith, eq_iff,
}
use wa8s.Prelude.Int.{ℤ, pos, negsuc, ◌<ℤ◌}
use wa8s.Apis.Services.{
  minute, hour, ServiceBindingSpec, ServiceBinding, ServiceClientSpec, percentage_period,
  default_service_client_spec,
}
use wa8s.Apis.Services.Duration.{default_service_client_spec_renews, percentage_period_overflow}
use wa8s.Apis.Services.Definition.{ServiceResourceDefinitionNames, contains}
use wa8s.Apis.Services.Instance.{ServiceInstanceSpec}

abbrev open_client : ServiceClientSpec
open_client = record {
  ref = record { name = "db" };
  scopes = "read" ∷ [];
  duration = pos (2 * hour);
  renew_before = pos 0;
  renew_before_percentage = pos 0;
}

default_service_client_spec_renews_example :
    (pos 0 <ℤ (default_service_client_spec open_client).renew_before)
    × ((default_service_client_spec open_client).renew_before
        <ℤ (default_service_client_spec open_client).duration)
default_service_client_spec_renews_example =
    default_service_client_spec_renews open_client (2 * hour) refl refl refl (omega arith)
      (omega arith)

percentage_period_overflow_example :
    percentage_period (pos 300000000000000000) (pos 33) ≡ pos (5 * minute)
percentage_period_overflow_example =
    percentage_period_overflow 300000000000000000 (omega arith) (omega arith)

abbrev texts : List String → List String → Bool
texts [] [] = true
texts [] (y ∷ ys) = false
texts (x ∷ xs) [] = false
texts (x ∷ xs) (y ∷ ys) = (x == y) && texts xs ys

texts_iff : (xs ys : List String) → (texts xs ys ≡ true) ↔ (xs ≡ ys)
texts_iff [] [] = ground arith
texts_iff [] (y ∷ ys) = ground arith
texts_iff (x ∷ xs) [] = ground arith
texts_iff (x ∷ xs) (y ∷ ys) = ground (arith, eq_iff x y, texts_iff xs ys)

abbrev integers : ℤ → ℤ → Bool
integers (pos m) (pos n) = eqb m n
integers (pos m) (negsuc n) = false
integers (negsuc m) (pos n) = false
integers (negsuc m) (negsuc n) = eqb m n

integers_iff : (a b : ℤ) → (integers a b ≡ true) ↔ (a ≡ b)
integers_iff (pos m) (pos n) = ground arith
integers_iff (pos m) (negsuc n) = ground arith
integers_iff (negsuc m) (pos n) = ground arith
integers_iff (negsuc m) (negsuc n) = ground arith

abbrev equal : ServiceBindingSpec → ServiceBindingSpec → Bool
equal a b = a.ref.name == b.ref.name && texts a.scopes b.scopes && integers a.duration b.duration

equal_iff : (a b : ServiceBindingSpec) → (equal a b ≡ true) ↔ (a ≡ b)
equal_iff a b = ground (
  arith,
  eq_iff a.ref.name b.ref.name,
  texts_iff a.scopes b.scopes,
  integers_iff a.duration b.duration,
)

abbrev binding : ServiceBinding
binding = record {
  metadata = record { namespace = "apps"; name = "app-1"; annotations = [] };
  spec = record { ref = record { name = "db" }; scopes = []; duration = pos hour };
  service_binding_id = "";
}

abbrev bound : ServiceBinding
bound = record binding { service_binding_id = "uid-1" }

abbrev instance_spec : ServiceInstanceSpec
instance_spec = record {
  ref = record { kind = "ServiceLifecycle"; namespace = "apps"; name = "postgres" };
  type = "small";
  tier = "";
  requests = record { key = "size"; value = "1Gi" } ∷ [];
}

abbrev names : ServiceResourceDefinitionNames
names = record {
  plural = "databases";
  short_names = [];
  kind = "Database";
  categories = "wa8s" ∷ [];
}

unlisted : contains "wa8s-services" names.categories ≡ false
unfolding contains
unlisted = refl
