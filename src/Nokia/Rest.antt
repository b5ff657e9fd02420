-- ===== src/Nokia/Rest.antt =====
-- integrations/nokia/client.py: the client of an operator that speaks CAMARA REST.
use zonegate_backend.Nokia.Models.{
  CamaraNumberVerificationRequest, circle, CamaraLocationVerificationRequest, is_reachable,
  CamaraSimSwapRequest, Validators, max_age_hours, CamaraDeviceSwapRequest,
  CamaraReachabilityRequest,
}
use zonegate_backend.Domain.{KindSet}
use zonegate_backend.Nokia.Json.{Json}
use zonegate_backend.Prelude.{String, Result, true, err, ok}
use zonegate_backend.Evidence.Gateway.{Carrier, Answer, failed, answered}

-- The paths of the five endpoints, with the body that each is sent.
pub data RestRequest : Type 0 where
  number_request : CamaraNumberVerificationRequest → RestRequest
  location_request : CamaraLocationVerificationRequest → RestRequest
  sim_request : CamaraSimSwapRequest → RestRequest
  device_request : CamaraDeviceSwapRequest → RestRequest
  reachability_request : CamaraReachabilityRequest → RestRequest

unfoldable pub path : RestRequest → String
path (number_request r) = "/number-verification/v1/verify"
path (location_request r) = "/location-verification/v1/verify"
path (sim_request r) = "/sim-swap/v1/check"
path (device_request r) = "/device-swap/v1/check"
path (reachability_request r) = "/device-reachability/v1/reachability-status"

-- The operator: `post` with `raise_for_status` and `json`, and the text of what they raise.
pub record Operator : Type 0 where
  pub post : String → RestRequest → Result String Json
  pub validators : Validators

-- One endpoint; every exception is one to the gateway, since no check is declined here.
unfoldable pub ask :
    {A B : Type 0} → Operator → RestRequest → (Json → Result String A) → (A → B) → Answer B
unfolding path
ask o request validate read = elim (o.post (path request) request) [
  | err e ↦ failed e
  | ok reply ↦ elim (validate reply) [ err e ↦ failed e | ok a ↦ answered (read a) ]
]

-- `frozenset(EvidenceKind)`
unfoldable pub rest_attestable_kinds : KindSet
rest_attestable_kinds k = true

unfoldable pub rest_carrier : Operator → Carrier
unfolding ask circle is_reachable
rest_carrier o = record {
  verify_number = λ phone.
      ask o (number_request (record { phone_number = phone })) o.validators.number
        (λ r. r.device_phone_number_verified);
  verify_location = λ phone fence.
      ask o
        (location_request
          (record { device = record { phone_number = phone }; area = circle "Circle" fence }))
        o.validators.location (λ r. r.verification_result);
  check_sim_swap = λ phone.
      ask o (sim_request (record { phone_number = phone; max_age = max_age_hours }))
        o.validators.sim (λ r. r.swapped);
  check_device_swap = λ phone.
      ask o (device_request (record { phone_number = phone; max_age = max_age_hours }))
        o.validators.device (λ r. r.swapped);
  get_reachability = λ phone.
      ask o (reachability_request (record { device = record { phone_number = phone } }))
        o.validators.reach is_reachable;
}
