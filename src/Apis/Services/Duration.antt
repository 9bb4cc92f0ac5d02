-- ===== src/Apis/Services/Duration.antt =====
-- The renewal period of a service client: what defaulting makes of it, and where it overflows.
use wa8s.Prelude.{ℕ, ◌≡◌, ◌≤◌, ◌<◌, ◌*◌, ◌/◌, ◌^◌, ◌-◌, true, false, arith, if◌then◌else◌, ltb}
use wa8s.Prelude.Int.{ℤ, pos, negsuc, ◌*ℤ◌, ◌≤ℤ◌, ◌<ℤ◌, quot, ltb_ℤ, wrap64, wrap64_of_lt}
use wa8s.Apis.Services.{
  ServiceClientSpec, minute, hour, is_zero, percentage_period, default_service_client_spec,
}

-- The period is never below five minutes.
pub percentage_period_least : (d p : ℤ) → pos (5 * minute) ≤ℤ percentage_period d p
unfolding percentage_period
percentage_period_least d p = ground arith

percentage_period_nonzero : (d p : ℤ) → is_zero (percentage_period d p) ≡ false
percentage_period_nonzero d p = ground (arith, percentage_period_least d p)

-- A product of natural numbers, as `int64` has it while it fits and when it just does not.
pos-mul : (d p : ℕ) → pos d *ℤ pos p ≡ pos (d * p)
unfolding ◌*ℤ◌
pos-mul d p = ground arith

wrap64_of_high : (n : ℕ) → 2 ^ 63 ≤ n → n < 2 ^ 64 → wrap64 (pos n) ≡ negsuc (2 ^ 64 - 1 - n)
unfolding wrap64
wrap64_of_high n lo hi = ground arith

quot_negsuc : (n k : ℕ) → ltb_ℤ (quot (negsuc n) k) (pos (5 * minute)) ≡ true
unfolding quot
quot_negsuc n k = ground arith

-- A second defaulting changes nothing, whatever the first one was given.
pub default_service_client_spec_idem :
    (r : ServiceClientSpec)
    → default_service_client_spec (default_service_client_spec r) ≡ default_service_client_spec r
unfolding default_service_client_spec
default_service_client_spec_idem r =
    let duration = if is_zero r.duration then pos (90 * (24 * hour)) else r.duration in
    let percentage =
      if is_zero r.renew_before_percentage then pos 33 else r.renew_before_percentage in
    ground (arith, percentage_period_nonzero duration percentage)

-- Where the product fits in 63 bits, the default period is the percentage of the duration or five
-- minutes, whichever is longer.
pub percentage_period_exact :
    (d p : ℕ)
    → d * p < 2 ^ 63
    → percentage_period (pos d) (pos p)
      ≡ (if ltb (d * p / 100) (5 * minute) then pos (5 * minute) else pos (d * p / 100))
unfolding percentage_period quot
percentage_period_exact d p h = rw (pos-mul d p, wrap64_of_lt (d * p) h) (ground arith)

-- A client with a duration of an hour or more that leaves the renewal and its percentage open
-- renews, once defaulted, strictly between its start and its end, if 33 times the duration is less
-- than 2 ^ 63.
pub default_service_client_spec_renews :
    (r : ServiceClientSpec) (d : ℕ)
    → r.duration ≡ pos d
    → r.renew_before ≡ pos 0
    → r.renew_before_percentage ≡ pos 0
    → hour ≤ d
    → d * 33 < 2 ^ 63
    → (pos 0 <ℤ (default_service_client_spec r).renew_before)
      × ((default_service_client_spec r).renew_before <ℤ (default_service_client_spec r).duration)
unfolding default_service_client_spec
default_service_client_spec_renews r d e b q least fits =
    ground (arith, percentage_period_exact d 33 fits)

-- A duration whose product with 33 is 2 ^ 63 or more, and less than 2 ^ 64, gets a renewal period
-- of five minutes, as the product wraps to a negative number.
pub percentage_period_overflow :
    (d : ℕ)
    → 2 ^ 63 ≤ d * 33
    → d * 33 < 2 ^ 64
    → percentage_period (pos d) (pos 33) ≡ pos (5 * minute)
unfolding percentage_period
percentage_period_overflow d lo hi =
    rw (pos-mul d 33, wrap64_of_high (d * 33) lo hi, quot_negsuc (2 ^ 64 - 1 - d * 33) 100)
