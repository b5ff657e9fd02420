-- ===== src/Nokia/Live.antt =====
-- integrations/nokia/live.py: the client of the Network as Code gateway.
--
-- The gateway on the other side, the `json` module's texts and pydantic are parameters.
use zonegate_backend.Prelude.{
  ℕ, String, Option, not, Result, some, Bool, suc, none, if◌then◌else◌, ◌||◌, ok, err, ◌==◌,
}
use zonegate_backend.Nokia.Json.{
  get_member, has_member, subscript, type_name, Json, Members, first_item, object, chain, text,
}
use zonegate_backend.Domain.{
  KindSet, EvidenceKind, same_kind, number_verification, location_verification, sim_swap,
  device_swap, reachability,
}
use zonegate_backend.Nokia.Models.{
  is_reachable, circle, CamaraLocationVerificationRequest, CamaraSimSwapResponse,
  CamaraReachabilityResponse, CamaraDeviceSwapResponse, CamaraSimSwapRequest,
  CamaraNumberVerificationResponse, CamaraDeviceSwapRequest, Validators,
  CamaraLocationVerificationResponse, max_age_hours, CamaraReachabilityRequest,
}
use zonegate_backend.Evidence.Gateway.{Answer, answered, Geofence, Carrier, declined, failed}
use zonegate_backend.Prelude.Text.{◌<>◌, strip}

-- The `arguments` of a tool call.
pub data Arguments : Type 0 where
  location_arguments : CamaraLocationVerificationRequest → Arguments
  sim_arguments : CamaraSimSwapRequest → Arguments
  device_arguments : CamaraDeviceSwapRequest → Arguments
  reachability_arguments : CamaraReachabilityRequest → Arguments

-- How a POST ends: an `httpx.HTTPError`, which an error status is too, a body that is not JSON, or
-- the body.
pub data HttpReply : Type 0 where
  http_error : String → HttpReply
  not_json : HttpReply
  body : Json → HttpReply

-- `post` gets the request id, the tool and its arguments. `subscript_error` is the text of the
-- TypeError, if one is raised, with which `"error" in body` and `body['error']` meet a body that is
-- no object.
pub record LiveGateway : Type 0 where
  pub post : ℕ → String → Arguments → HttpReply
  pub loads : String → Option Json
  pub dumps : Json → String
  pub show : Json → String
  pub subscript_error : Json → Option String
  pub validators : Validators

-- How a call of the client ends: a value, a `CarrierCapabilityUnavailableError`, a `NokiaLiveError`,
-- or another exception.
pub data Called (A : Type 0) : Type 0 where
  returned : A → Called A
  capability_unavailable : String → Called A
  live_error : String → Called A
  other_error : String → Called A

abbrev pub tool_location_verification : String
tool_location_verification = "verifyLocation-LocV-V0"

abbrev pub tool_sim_swap : String
tool_sim_swap = "checkSimSwap"

abbrev pub tool_device_swap : String
tool_device_swap = "checkDeviceSwap"

abbrev pub tool_reachability : String
tool_reachability = "getReachabilityStatus"

-- `frozenset(EvidenceKind) - {EvidenceKind.NUMBER_VERIFICATION}`
unfoldable pub attestable_kinds : KindSet
attestable_kinds k = not (same_kind k number_verification)

-- A text of a member, or "" where the member is missing.
unfoldable pub shown_member : (Json → String) → String → Members → String
unfolding get_member
shown_member show key members = elim (get_member key members) [ none ↦ "" | some j ↦ show j ]

-- `_describe`
unfoldable pub describe : LiveGateway → Members → String
unfolding get_member shown_member
describe g payload = elim (get_member "detail" payload) [
  | some (object detail) ↦
      let said =
        strip (shown_member g.show "code" detail <> " " <> shown_member g.show "message" detail) in
      if said == "" then g.dumps (object detail) else said
  | some (text detail) ↦ detail
  | _ ↦ g.dumps (object payload)
]

-- `"detail" in payload or "status" in payload or "code" in payload`
unfoldable pub is_declining : Members → Bool
unfolding has_member
is_declining payload =
    has_member "detail" payload || has_member "status" payload || has_member "code" payload

-- `body["result"]["content"][0]["text"]`; `none` for an error of any part.
unfoldable pub text_block : Json → Option Json
unfolding subscript first_item chain
text_block reply =
    chain (chain (chain (subscript "result" reply) (subscript "content")) first_item)
      (subscript "text")

-- `json.loads` of what stands there, which takes a text.
unfoldable pub load_block : LiveGateway → Option Json → Option Json
load_block g (some (text s)) = g.loads s
load_block g _ = none

unfoldable pub read_payload : LiveGateway → Json → Option Json
unfolding text_block load_block
read_payload g reply = load_block g (text_block reply)

abbrev pub unreadable : {A : Type 0} → String → Called A
unreadable tool = live_error ("Nokia gateway answered '" <> tool <> "' in an unreadable shape")

-- From the payload on.
unfoldable pub open_payload : LiveGateway → String → Option Json → Called Members
unfolding is_declining describe type_name
open_payload g tool none = unreadable tool
open_payload g tool (some (object payload)) =
    if is_declining payload
    then capability_unavailable ("The carrier declined '" <> tool <> "': " <> describe g payload)
    else returned payload
open_payload g tool (some j) =
    live_error ("Nokia gateway answered '" <> tool <> "' with " <> type_name j)

-- `_call_tool` behind the POST.
unfoldable pub read_reply : LiveGateway → String → HttpReply → Called Members
unfolding get_member read_payload open_payload
read_reply g tool (http_error e) =
    live_error ("Nokia gateway transport failure on '" <> tool <> "': " <> e)
read_reply g tool not_json =
    live_error ("Nokia gateway returned a non-JSON body for '" <> tool <> "'")
read_reply g tool (body (object members)) = elim (get_member "error" members) [
  | some e ↦ live_error ("Nokia gateway refused '" <> tool <> "': " <> g.show e)
  | none ↦ open_payload g tool (read_payload g (object members))
]
read_reply g tool (body j) = elim (g.subscript_error j) [
  | some e ↦ other_error e
  | none ↦ unreadable tool
]

-- `_call_tool`, from the request id that the client has used last.
unfoldable pub call_tool : LiveGateway → String → Arguments → ℕ → Called Members × ℕ
unfolding read_reply
call_tool g tool arguments request_id =
    (read_reply g tool (g.post (suc request_id) tool arguments), suc request_id)

unfoldable pub validated : {A : Type 0} → (Json → Result String A) → Called Members → Called A
validated validate (returned payload) = elim (validate (object payload)) [
  | ok a ↦ returned a
  | err e ↦ other_error e
]
validated validate (capability_unavailable e) = capability_unavailable e
validated validate (live_error e) = live_error e
validated validate (other_error e) = other_error e

unfoldable pub live_verify_number : String → Called CamaraNumberVerificationResponse
live_verify_number phone = capability_unavailable (
    "Number verification needs an access token minted over the device's own "
    <> "mobile connection; a server holding only the phone number cannot obtain "
    <> "one, and the carrier answers MISSING_IDENTIFIER")

abbrev pub area_arguments : String → Geofence → Arguments
area_arguments phone fence =
    location_arguments
      (record { device = record { phone_number = phone }; area = circle "CIRCLE" fence })

unfoldable pub live_verify_location :
    LiveGateway → String → Geofence → ℕ → Called CamaraLocationVerificationResponse × ℕ
unfolding circle call_tool validated
live_verify_location g phone fence id =
    let (called, id') = call_tool g tool_location_verification (area_arguments phone fence) id in
    (validated g.validators.location called, id')

unfoldable pub live_check_sim_swap : LiveGateway → String → ℕ → Called CamaraSimSwapResponse × ℕ
unfolding call_tool validated
live_check_sim_swap g phone id =
    let (called, id') =
      call_tool g tool_sim_swap
        (sim_arguments (record { phone_number = phone; max_age = max_age_hours })) id in
    (validated g.validators.sim called, id')

unfoldable pub live_check_device_swap :
    LiveGateway → String → ℕ → Called CamaraDeviceSwapResponse × ℕ
unfolding call_tool validated
live_check_device_swap g phone id =
    let (called, id') =
      call_tool g tool_device_swap
        (device_arguments (record { phone_number = phone; max_age = max_age_hours })) id in
    (validated g.validators.device called, id')

unfoldable pub live_get_reachability :
    LiveGateway → String → ℕ → Called CamaraReachabilityResponse × ℕ
unfolding call_tool validated
live_get_reachability g phone id =
    let (called, id') =
      call_tool g tool_reachability
        (reachability_arguments (record { device = record { phone_number = phone } })) id in
    (validated g.validators.reach called, id')

-- What the gateway makes of a call: `_declining` keeps the field open, any other exception is an
-- error of the collection.
unfoldable pub to_answer : {A B : Type 0} → (A → B) → Called A → Answer B
to_answer read (returned a) = answered (read a)
to_answer read (capability_unavailable e) = declined
to_answer read (live_error e) = failed e
to_answer read (other_error e) = failed e

-- The client as the gateway uses it during one collection, with the request id that each call has
-- found.
unfoldable pub live_carrier : LiveGateway → (EvidenceKind → ℕ) → Carrier
unfolding to_answer live_verify_number live_verify_location live_check_sim_swap
    live_check_device_swap live_get_reachability is_reachable
live_carrier g ids = record {
  verify_number =
      λ phone. to_answer (λ r. r.device_phone_number_verified) (live_verify_number phone);
  verify_location = λ phone fence.
      to_answer (λ r. r.verification_result)
        (live_verify_location g phone fence (ids location_verification)).0;
  check_sim_swap =
      λ phone. to_answer (λ r. r.swapped) (live_check_sim_swap g phone (ids sim_swap)).0;
  check_device_swap =
      λ phone. to_answer (λ r. r.swapped) (live_check_device_swap g phone (ids device_swap)).0;
  get_reachability =
      λ phone. to_answer is_reachable (live_get_reachability g phone (ids reachability)).0;
}
