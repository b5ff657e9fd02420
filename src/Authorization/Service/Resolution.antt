-- ===== src/Authorization/Service/Resolution.antt =====
-- `AuthorizationService.resolve_hold` and `.claim_token` of authorization/service.py.
use zonegate_backend.Authorization.Service.Deployment.{
  Deployment, Outcome, issue_and_save, receipt_for,
}
use zonegate_backend.Authorization.Token.{
  claim_token as check_claim, Claim, Expected, ScopedAuthorizationToken, verify_token,
}
use zonegate_backend.Domain.{
  PolicyDecision, DecisionOutcome, HoldResolution, is_hold, outcome_value, is_approve,
}
use zonegate_backend.Prelude.{
  String, Bool, some, get_or, Option, ℕ, false, none, if◌then◌else◌, not, is_some, ◌&&◌,
}
use zonegate_backend.Runtime.{
  Exec, ◌>>=◌, Exception, now, pure, decision_not_found, ◌>>◌, raise, hold_resolution_error,
  hold_authority_error,
}
use zonegate_backend.Policy.{truthy}
use zonegate_backend.Storage.{
  get_decision, get_transaction, get_token, save_decision, get_receipt_by_transaction_id,
  save_receipt, save_token,
}
use zonegate_backend.Prelude.Text.{◌<>◌}
use zonegate_backend.Authorization.Roles.{holds_authority}

-- The five guards of `resolve_hold`, in their order: the exception that the first failing one raises.
unfoldable pub resolution_refusal :
    String → Option PolicyDecision → DecisionOutcome → Option String → Option Exception
resolution_refusal id none outcome role =
    some (decision_not_found ("Decision '" <> id <> "' not found"))
resolution_refusal id (some d) outcome role =
    if not (is_hold d.decision)
    then some (
        hold_resolution_error (
          "Decision '"
          <> id
          <> "' is "
          <> outcome_value d.decision
          <> " and is not open to human "
          <> "resolution. Only a HOLD transfers authority to a person."))
    else elim d.resolution [
      | some r ↦ some (
          hold_resolution_error (
            "Decision '"
            <> id
            <> "' was already resolved as "
            <> outcome_value r.outcome
            <> " by "
            <> r.resolved_by))
      | none ↦
          if is_some role && not (holds_authority role d.required_authority)
          then some (
              hold_authority_error (
                "Decision '"
                <> id
                <> "' is held for "
                <> get_or d.required_authority "None"
                <> "; a "
                <> get_or role ""
                <> " cannot resolve it"))
          else if is_hold outcome
          then some (hold_resolution_error "A human resolution must be either APPROVE or DENY")
          else none
    ]

-- `required_authority or "UNSPECIFIED_AUTHORITY"`
unfoldable pub authority_role : PolicyDecision → String
authority_role d = get_or (truthy d.required_authority) "UNSPECIFIED_AUTHORITY"

unfoldable pub resolution_of :
    PolicyDecision → DecisionOutcome → String → String → ℕ → HoldResolution
unfolding authority_role
resolution_of d outcome resolved_by note time = record {
  outcome = outcome;
  resolved_by = resolved_by;
  authority_role = authority_role d;
  note = note;
  resolved_at = time;
}

-- The token of an approving resolution, from the transaction on record.
unfoldable pub approve_transaction : Deployment → PolicyDecision → Exec (Option String)
approve_transaction s d = do
  found ← get_transaction d.transaction_id
  elim found [
    | none ↦
        raise (
          hold_resolution_error ("Transaction '" <> d.transaction_id <> "' is no longer on record"))
    | some tx ↦ issue_and_save s (record {
      actor_id = tx.actor_id;
      action = tx.action;
      resource_id = tx.resource_id;
      zone = tx.zone;
      decision_id = d.decision_id;
    })
  ]

-- What follows once the guards have passed.
unfoldable pub settle_hold :
    Deployment → PolicyDecision → DecisionOutcome → String → String → Exec Outcome
unfolding resolution_of
settle_hold s d outcome resolved_by note = do
  time ← now
  let resolved = record d { resolution = some (resolution_of d outcome resolved_by note time) }
  save_decision resolved
  found ← get_receipt_by_transaction_id d.transaction_id
  let receipt = get_or found (receipt_for d time none)
  token ← (if is_approve outcome then approve_transaction s d else pure receipt.token)
  let updated = record receipt { issued_at = time; token = token }
  save_receipt updated
  pure (resolved, updated)

-- `resolver_role` is `none` for callers inside the service boundary.
unfoldable pub resolve_hold :
    Deployment → String → DecisionOutcome → String → String → Option String → Exec Outcome
resolve_hold s decision_id outcome resolved_by note resolver_role = do
  found ← get_decision decision_id
  elim (resolution_refusal decision_id found outcome resolver_role) [
    | some e ↦ raise e
    | none ↦ elim found [
      | none ↦ raise (decision_not_found decision_id)
      | some d ↦ settle_hold s d outcome resolved_by note
    ]
  ]

-- What a claim answers: the claim's own fields, and the token where there is one.
pub record ClaimAnswer : Type 0 where
  pub claimed : Bool
  pub status : String
  pub message : String
  pub token : Option ScopedAuthorizationToken

unfoldable pub answer_of : Claim → ClaimAnswer
answer_of c = record {
  claimed = c.claimed;
  status = c.status;
  message = c.message;
  token = some c.token;
}

-- The second half of a claim: the check of the token that was read, and the save.
unfoldable pub claim_found :
    Deployment → Expected → String → Option ScopedAuthorizationToken → Exec ClaimAnswer
claim_found s e identifier none = pure (record {
  claimed = false;
  status = "REJECTED_NOT_FOUND";
  message = "Authorization token '" <> identifier <> "' not found in registry";
  token = none;
})
claim_found s e identifier (some t) = do
  checked_at ← now
  claimed_at ← (if (verify_token s.formats checked_at t e).is_valid then now else pure checked_at)
  let c = check_claim s.formats checked_at claimed_at t e
  (if c.claimed then save_token c.token else pure tt)
  pure (answer_of c)

unfoldable pub claim_token : Deployment → String → Expected → Exec ClaimAnswer
claim_token s identifier e = do found ← get_token identifier; claim_found s e identifier found
