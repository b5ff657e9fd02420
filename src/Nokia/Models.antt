-- ===== src/Nokia/Models.antt =====
-- integrations/nokia/models.py: what a client sends and what it reads from an answer.
use zonegate_backend.Prelude.{String, Option, Bool, ℕ, List, true, some, Result, false, none}
use zonegate_backend.Nokia.Json.{Json}
use zonegate_backend.Evidence.Gateway.{Degrees, LocationVerdict, Geofence}

pub record CamaraNumberVerificationRequest : Type 0 where
  pub phone_number : String

pub record CamaraNumberVerificationResponse : Type 0 where
  pub device_phone_number_verified : Bool

pub record CamaraCoordinates : Type 0 where
  pub latitude : Degrees
  pub longitude : Degrees

-- The REST client writes "Circle", the live one "CIRCLE".
pub record CamaraCircleArea : Type 0 where
  pub area_type : String
  pub center : CamaraCoordinates
  pub radius : ℕ

pub record CamaraDeviceRef : Type 0 where
  pub phone_number : String

pub record CamaraLocationVerificationRequest : Type 0 where
  pub device : CamaraDeviceRef
  pub area : CamaraCircleArea

-- The match rate is only stored, as it was written.
pub record CamaraLocationVerificationResponse : Type 0 where
  pub verification_result : LocationVerdict
  pub match_rate : Option String
  pub last_location_time : Option String

pub record CamaraSimSwapRequest : Type 0 where
  pub phone_number : String
  pub max_age : ℕ

pub record CamaraSimSwapResponse : Type 0 where
  pub swapped : Bool
  pub latest_sim_change : Option String

pub record CamaraDeviceSwapRequest : Type 0 where
  pub phone_number : String
  pub max_age : ℕ

pub record CamaraDeviceSwapResponse : Type 0 where
  pub swapped : Bool
  pub latest_device_change : Option String

pub record CamaraReachabilityRequest : Type 0 where
  pub device : CamaraDeviceRef

pub data ReachabilityStatus : Type 0 where
  connected_data connected_sms not_connected unknown : ReachabilityStatus

pub record CamaraReachabilityResponse : Type 0 where
  pub reachability_status : Option ReachabilityStatus
  pub reachable : Option Bool
  pub connectivity : Option (List String)
  pub last_status_time : Option String

-- `self.reachabilityStatus in ("CONNECTED_DATA", "CONNECTED_SMS")`
unfoldable pub is_connected : ReachabilityStatus → Bool
is_connected connected_data = true
is_connected connected_sms = true
is_connected _ = false

unfoldable pub is_reachable : CamaraReachabilityResponse → Option Bool
unfolding is_connected
is_reachable response = elim response.reachable [
  | some b ↦ some b
  | none ↦ elim response.reachability_status [
    | none ↦ none
    | some status ↦ some (is_connected status)
  ]
]

-- `model_validate` of each response, with the text of a ValidationError. Pydantic's own.
pub record Validators : Type 0 where
  pub number : Json → Result String CamaraNumberVerificationResponse
  pub location : Json → Result String CamaraLocationVerificationResponse
  pub sim : Json → Result String CamaraSimSwapResponse
  pub device : Json → Result String CamaraDeviceSwapResponse
  pub reach : Json → Result String CamaraReachabilityResponse

-- The area that a client sends for a zone.
unfoldable pub circle : String → Geofence → CamaraCircleArea
circle area_type fence = record {
  area_type = area_type;
  center = record { latitude = fence.latitude; longitude = fence.longitude };
  radius = fence.radius_meters;
}

-- The default of `max_age_hours`, which the gateway leaves as it is.
abbrev pub max_age_hours : ℕ
max_age_hours = 240
