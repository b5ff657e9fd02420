-- ===== src/Policy.antt =====
-- policy/engine.py: the deterministic policy engine.
pub mod Rules
use zonegate_backend.Prelude.{
  ℕ, String, Bool, true, false, not, ◌&&◌, Option, none, some, List, [], ◌∷◌, map, ◌==◌,
  if◌then◌else◌, keep, contains, is_some, get_or,
}
use zonegate_backend.Prelude.Text.{◌<>◌, lower, join}
use zonegate_backend.Domain.{
  EvidenceKind, KindSet, number_verification, location_verification, sim_swap, device_swap,
  reachability, kyc_match, same_kind, sorted_kinds, CanonicalEvidence, ContextEvaluation,
  DecisionOutcome, EvidenceSummary, PolicyDecision, Actor, TransactionRequest,
}
use zonegate_backend.Domain.PolicyConfig.{PolicyConfig, authority_for}

-- `ACTION_PERMISSIONS.get(action, f"{action.lower()}:execute")`
unfoldable pub required_permission : String → String
required_permission action =
    if "RELEASE_CARGO" == action then "cargo:release" else lower action <> ":execute"

abbrev pub sim_swap_authority : String
sim_swap_authority = "ROLE_SECURITY_OFFICER"

-- `EVIDENCE_FIELDS`: the field in which the answer to a check lands, or `none` for a kind that is
-- not a key of the dict.
unfoldable pub evidence_field : EvidenceKind → Option (CanonicalEvidence → Option Bool)
evidence_field number_verification = some (λ e. e.number_verified)
evidence_field location_verification = some (λ e. e.location_verified)
evidence_field sim_swap = some (λ e. e.recent_sim_swap)
evidence_field device_swap = some (λ e. e.recent_device_swap)
evidence_field reachability = some (λ e. e.reachable)
evidence_field kyc_match = none

-- `EVIDENCE_LABELS`; the engine reads it only at a kind that has a field.
unfoldable pub evidence_label : EvidenceKind → String
evidence_label number_verification = "Subscriber number verification"
evidence_label location_verification = "Device location verification"
evidence_label sim_swap = "SIM continuity"
evidence_label device_swap = "Device continuity"
evidence_label reachability = "Network reachability"
evidence_label kyc_match = ""

-- `x is False` and `x is True`
abbrev pub is_false : Option Bool → Bool
is_false (some false) = true
is_false _ = false

abbrev pub is_true : Option Bool → Bool
is_true (some true) = true
is_true _ = false

-- `field is not None and getattr(evidence, field) is None`
unfoldable pub is_unanswered : CanonicalEvidence → EvidenceKind → Bool
unfolding evidence_field
is_unanswered e k = elim (evidence_field k) [ none ↦ false | some field ↦ not (is_some (field e)) ]

-- The loop of rule 2b: the first kind whose check was not answered.
unfoldable pub first_unanswered : CanonicalEvidence → List EvidenceKind → Option EvidenceKind
first_unanswered e [] = none
first_unanswered e (k ∷ ks) =
    let rest = first_unanswered e ks in if is_unanswered e k then some k else rest

-- The truth of an optional text: an empty one counts as missing.
abbrev pub truthy : Option String → Option String
truthy none = none
truthy (some s) = if s == "" then none else some s

-- `attestable`, all kinds when it is not given.
unfoldable pub supported_kinds : Option KindSet → KindSet
supported_kinds attestable = get_or attestable (λ _. true)

-- `required`, and the number verification that is supported when it is not given.
unfoldable pub mandatory_kinds : Option KindSet → Option KindSet → KindSet
unfolding supported_kinds
mandatory_kinds attestable required =
    get_or required (λ k. same_kind k number_verification && supported_kinds attestable k)

-- The texts of the reasons.
abbrev pub number_caveat : String
number_caveat =
    "Caveat: this deployment's carrier cannot attest the number on the "
    <> "device, so the actor-to-number binding rests on the ZoneGate "
    <> "enrolment record rather than on network attestation"

unfoldable pub permission_reason : String → String → String
permission_reason permission action =
    "Actor lacks required permission '" <> permission <> "' for action '" <> action <> "'"

abbrev pub number_reason : String
number_reason =
    "Subscriber number verification failed: the carrier did not confirm "
    <> "the registered number on this device"

abbrev pub location_reason : String
location_reason = "Device location geofence check failed: device is outside authorized zone"

abbrev pub sim_swap_reason : String
sim_swap_reason =
    "Recent carrier SIM swap detected on the subscriber device; the line "
    <> "the network evidence was collected over may have changed hands"

unfoldable pub unanswered_reason : EvidenceKind → String
unanswered_reason k =
    evidence_label k
    <> " is required for this release but was "
    <> "not collected; the carrier did not answer the check, so the "
    <> "release cannot rest on network evidence that does not exist"

unfoldable pub category_reason : String → String → String
category_reason category authority =
    "Cargo category '" <> category <> "' is restricted and is released "
    <> "only on the approval of " <> authority

-- The checks that an approval names.
unfoldable pub passed_checks : List EvidenceKind → List String
passed_checks ks = map (λ k. lower (evidence_label k)) (keep (λ k. is_some (evidence_field k)) ks)

unfoldable pub or_none : List String → String
or_none [] = "no network checks"
or_none (s ∷ r) = join (s ∷ r)

unfoldable pub approval_reason : String → List EvidenceKind → String
approval_reason category ks =
    "Category '"
    <> category
    <> "' is unrestricted and the required "
    <> "network evidence passed deterministic policy checks ("
    <> or_none (passed_checks ks)
    <> ")"

unfoldable pub caveats : KindSet → List String
caveats supported = if supported number_verification then [] else number_caveat ∷ []

unfoldable pub summary : CanonicalEvidence → EvidenceSummary
summary e = record {
  number_verified = e.number_verified;
  location_verified = e.location_verified;
  recent_sim_swap = e.recent_sim_swap;
  recent_device_swap = e.recent_device_swap;
  reachable = e.reachable;
}

-- `PolicyEngine.evaluate`. The decision's id and time are drawn by the caller of the model.
module _ (config : PolicyConfig) (decision_id : String) (now : ℕ) (tx : TransactionRequest)
    (actor : Actor) (evidence : CanonicalEvidence) (context : Option ContextEvaluation)
    (attestable required : Option KindSet) where
  -- The inner function `outcome`.
  unfoldable pub outcome : DecisionOutcome → String → Option String → Bool → PolicyDecision
  unfolding caveats summary supported_kinds
  outcome decision reason required_authority rests_on_evidence = record {
    decision_id = decision_id;
    transaction_id = tx.transaction_id;
    decision = decision;
    reasons =
        if rests_on_evidence then reason ∷ caveats (supported_kinds attestable) else reason ∷ [];
    required_authority = required_authority;
    context_evaluation = context;
    evidence_summary = some (summary evidence);
    decided_at = now;
    resolution = none;
  }

  -- Rules 3 to 6.
  unfoldable pub evaluate_answers : PolicyDecision
  unfolding outcome
  evaluate_answers =
      if is_false evidence.location_verified
      then outcome DecisionOutcome.deny location_reason none true
      else if is_true evidence.recent_sim_swap
      then outcome DecisionOutcome.hold sim_swap_reason (some sim_swap_authority) true
      else elim (truthy (authority_for config tx.category)) [
        | some authority ↦
            outcome DecisionOutcome.hold (category_reason tx.category authority) (some authority)
              true
        | none ↦
            outcome DecisionOutcome.approve
              (approval_reason tx.category (sorted_kinds (mandatory_kinds attestable required)))
              none true
      ]

  unfoldable pub evaluate : PolicyDecision
  unfolding outcome evaluate_answers
  evaluate =
      if not (contains (required_permission tx.action) actor.permissions)
      then outcome DecisionOutcome.deny
          (permission_reason (required_permission tx.action) tx.action) none false
      else if is_false evidence.number_verified
      then outcome DecisionOutcome.deny number_reason none true
      else elim (first_unanswered evidence (sorted_kinds (mandatory_kinds attestable required))) [
        | some kind ↦ outcome DecisionOutcome.deny (unanswered_reason kind) none true
        | none ↦ evaluate_answers
      ]
