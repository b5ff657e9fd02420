-- ===== src/Evidence/Gateway.antt =====
-- evidence/gateway.py, with evidence/canonical.py's record: the only way to the carrier.
pub mod Collecting
pub mod Checks
pub mod Zones
use zonegate_backend.Prelude.{
  List, Bool, ℕ, Option, ok, String, Result, true, ◌++◌, none, false, if◌then◌else◌, ◌∷◌, lookup,
  not, err, some, [], ◌==◌, get_or,
}
use zonegate_backend.Domain.{
  KindSet, EvidenceKind, Actor, CanonicalEvidence, DeviceBinding, mem_kind, TransactionRequest,
  number_verification, value, ValidatedEvidencePlan, location_verification, sim_swap, device_swap,
  reachability,
}
use zonegate_backend.Prelude.Text.{◌<>◌}

-- A coordinate of `DEFAULT_ZONE_REGISTRY`, as it is written: ten-thousandths of a degree, and
-- whether it is negative.
pub record Degrees : Type 0 where
  pub negative : Bool
  pub ten_thousandths : ℕ

pub record Geofence : Type 0 where
  pub latitude : Degrees
  pub longitude : Degrees
  pub radius_meters : ℕ

abbrev pub north : ℕ → Degrees
north n = record { negative = false; ten_thousandths = n }

abbrev pub west : ℕ → Degrees
west n = record { negative = true; ten_thousandths = n }

abbrev pub default_zone_registry : List (String × Geofence)
default_zone_registry =
    (
      "ZONE_CARGO_BAY_1",
      record { latitude = north 377749; longitude = west 1224194; radius_meters = 500 },
    )
    ∷ (
      "ZONE_PORT_TERMINAL_A",
      record { latitude = north 377899; longitude = west 1224014; radius_meters = 1000 },
    )
    ∷ (
      "PORT_GATE_17",
      record { latitude = north 377955; longitude = west 1223937; radius_meters = 400 },
    )
    ∷ (
      "DEFAULT_ZONE",
      record { latitude = north 377749; longitude = west 1224194; radius_meters = 1000 },
    )
    ∷ []

-- `SUPPORTED_CAPABILITIES`
unfoldable pub supported_capabilities : KindSet
supported_capabilities k =
    mem_kind k
      (number_verification ∷ location_verification ∷ sim_swap ∷ device_swap ∷ reachability ∷ [])

-- What ends `collect_evidence` early. `missing_zone` is the KeyError of a registry that has no
-- DEFAULT_ZONE, which is no gateway error.
pub data GatewayError : Type 0 where
  actor_device_mismatch : String → GatewayError
  unauthorized_evidence : EvidenceKind → GatewayError
  communication : String → GatewayError
  missing_zone : GatewayError

-- How a call of the carrier client ends: an answer, a `CarrierCapabilityUnavailableError`, or any
-- other exception, with its text.
pub data Answer (A : Type 0) : Type 0 where
  answered : A → Answer A
  declined : Answer A
  failed : String → Answer A

-- `verificationResult` of a location answer.
pub data LocationVerdict : Type 0 where
  inside outside partial unknown : LocationVerdict

-- `NokiaClientProtocol`: what the carrier answers during one collection. The swap checks are asked
-- with their default age; a reachability answer is the value of `is_reachable`.
pub record Carrier : Type 0 where
  pub verify_number : String → Answer Bool
  pub verify_location : String → Geofence → Answer LocationVerdict
  pub check_sim_swap : String → Answer Bool
  pub check_device_swap : String → Answer Bool
  pub get_reachability : String → Answer (Option Bool)

-- `validate_actor_device_binding`: the first mismatch, if there is one.
unfoldable pub binding_mismatch : Actor → DeviceBinding → Option String
binding_mismatch actor binding =
    if not (actor.actor_id == binding.actor_id)
    then some (
        "Actor ID '" <> actor.actor_id <> "' does not match binding actor ID '" <> binding.actor_id
        <> "'")
    else if not (actor.registered_phone_number == binding.phone_number)
    then some "Registered phone number does not match device binding"
    else if not (actor.registered_device_id == binding.device_id)
    then some "Registered device ID does not match device binding"
    else if not binding.is_active
    then some ("Device binding for actor '" <> actor.actor_id <> "' is inactive")
    else if not (actor.enrollment_status == "ACTIVE")
    then some (
        "Actor '" <> actor.actor_id <> "' status is '" <> actor.enrollment_status
        <> "', expected 'ACTIVE'")
    else none

-- The loop over the plan: the first kind outside the static allowlist.
unfoldable pub first_unsupported : List EvidenceKind → Option EvidenceKind
first_unsupported [] = none
first_unsupported (k ∷ ks) =
    let rest = first_unsupported ks in if supported_capabilities k then rest else some k

-- `registry.get(zone, registry["DEFAULT_ZONE"])`; Python reads the default first.
unfoldable pub resolve_zone : List (String × Geofence) → String → Option Geofence
resolve_zone registry zone = elim (lookup "DEFAULT_ZONE" registry) [
  | none ↦ none
  | some default ↦ some (get_or (lookup zone registry) default)
]

abbrev pub is_inside : LocationVerdict → Bool
is_inside LocationVerdict.inside = true
is_inside _ = false

-- One check of the plan: skipped if the kind is not in the plan, left open if the carrier declines,
-- and an error if the call fails. The list holds the kinds that the carrier was asked about.
abbrev pub Collected {ℓ} : Type ℓ → Type ℓ
Collected A = List EvidenceKind × Result GatewayError A

unfoldable pub communication_message : String → String
communication_message text = "Nokia carrier gateway communication error: " <> text

unfoldable pub read_answer :
    {A : Type 0} → (A → Option Bool) → Answer A → Result GatewayError (Option Bool)
read_answer read (answered a) = ok (read a)
read_answer read declined = ok none
read_answer read (failed text) = err (communication (communication_message text))

unfoldable pub check :
    {A : Type 0}
    → EvidenceKind
    → List EvidenceKind
    → Answer A
    → (A → Option Bool)
    → Collected (Option Bool)
unfolding read_answer
check kind combined answer read =
    if mem_kind kind combined then (kind ∷ [], read_answer read answer) else ([], ok none)

infixl 5 ◌>>=◌
abbrev pub ◌>>=◌ {ℓ κ} : {A : Type ℓ} {B : Type κ} → Collected A → (A → Collected B) → Collected B
(asked, ok a) >>= f = let (more, r) = f a in (asked ++ more, r)
(asked, err e) >>= f = (asked, err e)

-- The `try` block and the record built behind it.
unfoldable pub collect_checks :
    Carrier → String → Geofence → List EvidenceKind → ℕ → Collected CanonicalEvidence
unfolding check
collect_checks carrier phone fence combined now = do
  number_verified ← check number_verification combined (carrier.verify_number phone) (λ b. some b)
  location_verified ←
      check location_verification combined (carrier.verify_location phone fence)
        (λ v. some (is_inside v))
  recent_sim_swap ← check sim_swap combined (carrier.check_sim_swap phone) (λ b. some b)
  recent_device_swap ← check device_swap combined (carrier.check_device_swap phone) (λ b. some b)
  reachable ← check reachability combined (carrier.get_reachability phone) (λ b. b)
  (
    [],
    ok (record {
      number_verified = number_verified;
      location_verified = location_verified;
      recent_sim_swap = recent_sim_swap;
      recent_device_swap = recent_device_swap;
      reachable = reachable;
      kyc_matched = none;
      collected_at = now;
    }),
  )

-- `EvidenceGateway.collect_evidence`, with the time that it reads at its end.
unfoldable pub collect_evidence :
    List (String × Geofence)
    → Carrier
    → ℕ
    → Actor
    → DeviceBinding
    → TransactionRequest
    → ValidatedEvidencePlan
    → Collected CanonicalEvidence
collect_evidence registry carrier now actor binding tx plan =
    elim (binding_mismatch actor binding) [
      | some text ↦ ([], err (actor_device_mismatch text))
      | none ↦ elim (first_unsupported plan.combined) [
        | some k ↦ ([], err (unauthorized_evidence k))
        | none ↦ elim (resolve_zone registry tx.zone) [
          | none ↦ ([], err missing_zone)
          | some fence ↦ collect_checks carrier binding.phone_number fence plan.combined now
        ]
      ]
    ]

-- The text of a gateway error.
unfoldable pub gateway_message : GatewayError → String
gateway_message (actor_device_mismatch text) = text
gateway_message (unauthorized_evidence k) =
    "Evidence kind '" <> value k <> "' is not supported or authorized by the gateway"
gateway_message (communication text) = text
gateway_message missing_zone = "'DEFAULT_ZONE'"
