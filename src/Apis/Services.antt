-- ===== src/Apis/Services.antt =====
-- integrations/services/apis/services/v1alpha1: service clients and service bindings
-- (serviceclient_webhook.go, servicebinding_webhook.go). Durations are `int64` nanoseconds.
pub mod Instance
pub mod Definition
pub mod Duration
pub mod Lifecycle
pub mod Laws
use wa8s.Prelude.{
  ℕ, zero, suc, String, Bool, true, false, not, ◌&&◌, ◌||◌, ◌*◌, List, [], ◌∷◌, ◌++◌, Option, none,
  some, if◌then◌else◌, ◌==◌,
}
use wa8s.Prelude.Int.{ℤ, pos, negsuc, ◌*ℤ◌, quot, ltb_ℤ, wrap64}
use wa8s.Field.{
  FieldPath, FieldError, ErrorList, new_path, child, index, require, when_error, invalid,
}
use wa8s.Apis.Meta.{ObjectMeta, Context, validate_common_annotations}

abbrev pub minute : ℕ
minute = 60000000000

abbrev pub hour : ℕ
hour = 3600000000000

-- `d == 0`
abbrev pub is_zero : ℤ → Bool
is_zero (pos zero) = true
is_zero (pos (suc n)) = false
is_zero (negsuc n) = false

pub record ServiceInstanceReference : Type 0 where
  pub name : String

unfoldable pub validate_service_instance_reference :
    FieldPath → ServiceInstanceReference → ErrorList
validate_service_instance_reference p r = require r.name (child p "name")

-- The loop over the scopes.
unfoldable pub validate_scopes : FieldPath → ℕ → List String → ErrorList
validate_scopes p i [] = []
validate_scopes p i (s ∷ scopes) =
    when_error (s == "") (invalid (index p i) (some s) "may not be empty")
    ++ validate_scopes p (suc i) scopes

-- The value in the error is a duration as `Duration.String()` prints it, which is left out.
abbrev pub at_least : ℕ → ℤ → FieldPath → String → ErrorList
at_least least d p message = when_error (ltb_ℤ d (pos least)) (invalid p none message)

pub record ServiceBindingSpec : Type 0 where
  pub ref : ServiceInstanceReference
  pub scopes : List String
  pub duration : ℤ

unfoldable pub validate_service_binding_spec : FieldPath → ServiceBindingSpec → ErrorList
unfolding validate_service_instance_reference
validate_service_binding_spec p r =
    validate_service_instance_reference (child p "ref") r.ref
    ++ validate_scopes (child p "scopes") 0 r.scopes
    ++ at_least hour r.duration (child p "duration") "minimum duration 1h"

pub record ServiceClientSpec : Type 0 where
  pub ref : ServiceInstanceReference
  pub scopes : List String
  pub duration : ℤ
  pub renew_before : ℤ
  pub renew_before_percentage : ℤ

-- The renewal period that the percentage gives: the product wraps, the quotient rounds to zero, and
-- the result is raised to five minutes.
unfoldable pub percentage_period : ℤ → ℤ → ℤ
percentage_period duration percentage =
    let period = quot (wrap64 (duration *ℤ percentage)) 100 in
    if ltb_ℤ period (pos (5 * minute)) then pos (5 * minute) else period

-- `ServiceInstanceReference.Default` changes nothing.
unfoldable pub default_service_client_spec : ServiceClientSpec → ServiceClientSpec
default_service_client_spec r =
    let duration = if is_zero r.duration then pos (90 * (24 * hour)) else r.duration in
    let percentage =
      if is_zero r.renew_before_percentage then pos 33 else r.renew_before_percentage in
    if is_zero r.renew_before
    then record r {
      duration = duration;
      renew_before = percentage_period duration percentage;
      renew_before_percentage = percentage;
    }
    else record r { duration = duration }

unfoldable pub validate_service_client_spec : FieldPath → ServiceClientSpec → ErrorList
unfolding validate_service_instance_reference
validate_service_client_spec p r =
    validate_service_instance_reference (child p "ref") r.ref
    ++ validate_scopes (child p "scopes") 0 r.scopes
    ++ at_least hour r.duration (child p "duration") "minimum duration 1h"
    ++ at_least (5 * minute) r.renew_before (child p "renewBefore") "minimum duration 5m"
    ++ when_error
        (ltb_ℤ r.renew_before_percentage (pos 0) || ltb_ℤ (pos 100) r.renew_before_percentage)
        (invalid (child p "renewBeforePercentage") none "must be within 0-100")

pub record ServiceClient : Type 0 where
  pub metadata : ObjectMeta
  pub spec : ServiceClientSpec

unfoldable pub default_service_client : ServiceClient → ServiceClient
unfolding default_service_client_spec
default_service_client r = record r { spec = default_service_client_spec r.spec }

unfoldable pub validate_service_client : FieldPath → ServiceClient → ErrorList
validate_service_client p r =
    validate_common_annotations p r.metadata ++ validate_service_client_spec (child p "spec") r.spec

-- `ValidateCreate`, and `ValidateUpdate` of the new object.
unfoldable pub validate_create_service_client : ServiceClient → ErrorList
validate_create_service_client obj =
    validate_service_client (new_path "") (default_service_client obj)

-- The status fields that the webhook and the controllers read.
pub record ServiceBinding : Type 0 where
  pub metadata : ObjectMeta
  pub spec : ServiceBindingSpec
  pub service_binding_id : String

unfoldable pub validate_service_binding : FieldPath → ServiceBinding → ErrorList
validate_service_binding p r =
    validate_common_annotations p r.metadata
    ++ validate_service_binding_spec (child p "spec") r.spec

-- What an update is answered with: an error of the webhook's own, or the errors of `Validate`.
pub data Answer : Type 0 where
  refused : String → Answer
  checked : ErrorList → Answer

-- `ValidateUpdate`; `equal` stands for `cmp.Equal`, which is not part of this repository.
-- `Default` changes nothing here.
unfoldable pub validate_update_service_binding :
    (ServiceBindingSpec → ServiceBindingSpec → Bool) → ServiceBinding → ServiceBinding → Answer
validate_update_service_binding equal old new =
    if not (equal new.spec old.spec)
    then refused ".spec updates are disallowed"
    else if not (old.service_binding_id == "")
        && not (new.service_binding_id == old.service_binding_id)
    then refused ".status.serviceBindingId is immutable once set"
    else checked (validate_service_binding (new_path "") new)
