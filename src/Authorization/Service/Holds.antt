-- ===== src/Authorization/Service/Holds.antt =====
-- `AuthorizationService.resolve_hold` of authorization/service.py: who may settle a hold, what that
-- leaves on record, and that it happens once.
pub mod Settled
pub mod Once
pub mod Lost
use zonegate_backend.Runtime.{Tables, pure, decision_not_found}
use zonegate_backend.Authorization.Service.Resolution.{
  resolution_refusal, approve_transaction, resolution_of, settle_hold, resolve_hold,
}
use zonegate_backend.Domain.{
  PolicyDecision, DecisionOutcome, TransactionRequest, Receipt, is_approve,
}
use zonegate_backend.Prelude.{
  String, Option, some, ◌≡◌, none, ◌⊎◌, arith, true, ◌≢◌, ℕ, get_or, update, Option-cases, inl, ap,
  inr, ◌∙◌, refl, eq_refl, if◌then◌else◌,
}
use zonegate_backend.Authorization.Roles.{holds_authority}
use zonegate_backend.Authorization.Service.Deployment.{
  Deployment, issue_and_save, Outcome, receipt_for,
}
use zonegate_backend.Storage.{
  save_token, get_transaction, with_token, through, with_receipt, with_decision, save_decision,
  get_receipt_by_transaction_id, save_receipt, get_decision,
}
use zonegate_backend.Authorization.Token.{Scope, issue_token}
use zonegate_backend.Runtime.Triples.{
  Triple, Triple-bind, Triple-reading, Triple-now, Triple-draw, Triple-given, Triple-writing,
  Triple-raise, Triple-weaken, Triple-pure,
}
use zonegate_backend.Authorization.Service.Results.{HoldsToken, scope_of, issued_token_stored}
use zonegate_backend.Prelude.Text.{◌<>◌}

-- What a decision has to be for a caller to settle it this way.
pub record IsResolvable (d : PolicyDecision) (outcome : DecisionOutcome) (role : Option String)
    : Type 0 where
  pub held : d.decision ≡ DecisionOutcome.hold
  pub unresolved : d.resolution ≡ none
  pub authorized : (role ≡ none) ⊎ (holds_authority role d.required_authority ≡ true)
  pub final : outcome ≢ DecisionOutcome.hold

pub resolution_refusal-IsResolvable :
    (id : String) (d : PolicyDecision) (outcome : DecisionOutcome) (role : Option String)
    → resolution_refusal id (some d) outcome role ≡ none
    → IsResolvable d outcome role
unfolding resolution_refusal
resolution_refusal-IsResolvable id d outcome role h = record {
  held = ground (arith, h);
  unresolved = ground (arith, h);
  authorized = ground (arith, h);
  final = ground (arith, h);
}

pub IsResolvable-resolution_refusal :
    (id : String) (d : PolicyDecision) (outcome : DecisionOutcome) (role : Option String)
    → IsResolvable d outcome role
    → resolution_refusal id (some d) outcome role ≡ none
unfolding resolution_refusal
IsResolvable-resolution_refusal id d outcome role r =
    ground (arith, r.held, r.unresolved, r.authorized, r.final)

pub refused_unknown :
    (id : String) (outcome : DecisionOutcome) (role : Option String)
    → resolution_refusal id none outcome role
      ≡ some (decision_not_found ("Decision '" <> id <> "' not found"))
unfolding resolution_refusal
refused_unknown id outcome role = refl

-- The receipt that a resolution goes on to: the one that the transaction index names, of whichever
-- decision that is, or a new one.
abbrev pub receipt_before : Tables → PolicyDecision → ℕ → Receipt
receipt_before t d time =
    get_or (through t.receipt_tx_index t.receipts d.transaction_id) (receipt_for d time none)

-- The token of an approval is fresh and scoped to the transaction on record; a refusal leaves the
-- receipt's token and all tokens as they were.
abbrev pub TokenOf :
    Deployment
    → PolicyDecision
    → DecisionOutcome
    → Option String
    → Tables
    → Option String
    → Tables
    → Type 0
TokenOf s d DecisionOutcome.approve old before token t =
    (tx : TransactionRequest) × (before.transactions d.transaction_id ≡ some tx)
    × (token_id : String) × (token ≡ some token_id)
    × HoldsToken s (scope_of tx d tx.actor_id) t token_id
TokenOf s d _ old before token t = (token ≡ old) × (t.tokens ≡ before.tokens)

-- What a resolution that returns has found and has left.
pub record IsResolved (s : Deployment) (id : String) (outcome : DecisionOutcome)
    (resolved_by note : String) (role : Option String) (before : Tables) (out : Outcome)
    (t : Tables) : Type 0 where
  pub d : PolicyDecision
  pub time : ℕ
  pub on_record : before.decisions id ≡ some d
  pub resolvable : IsResolvable d outcome role
  pub only_resolution :
      out.0 ≡ (record d { resolution = some (resolution_of d outcome resolved_by note time) })
  pub decision_stored : t.decisions ≡ update before.decisions d.decision_id out.0
  pub receipt_kept :
      out.1 ≡ (record (receipt_before before d time) { issued_at = time; token = out.1.token })
  pub receipt_stored : t.receipts out.1.receipt_id ≡ some out.1
  pub token_given : TokenOf s d outcome (receipt_before before d time).token before out.1.token t
