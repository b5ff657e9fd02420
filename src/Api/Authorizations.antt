-- ===== src/Api/Authorizations.antt =====
-- api/authorization.py: requests for an authorization, listings, and the resolution of a hold.
use zonegate_backend.Runtime.{
  ◌>>=◌, Exception, Exec, World, pure, decision_not_found, catch, raise, hold_authority_error,
  hold_resolution_error,
}
use zonegate_backend.Authorization.Service.Deployment.{Outcome, Deployment, Listener}
use zonegate_backend.Authorization.Service.{authorize_transaction}
use zonegate_backend.Prelude.{
  List, Option, some, String, Bool, ℕ, Result, false, if◌then◌else◌, ◌∷◌, none, keep, [], ok, map,
  true, err, not, is_some, ◌++◌,
}
use zonegate_backend.Domain.{
  DecisionOutcome, TransactionRequest, PolicyDecision, CanonicalEvidence, ValidatedEvidencePlan,
  Receipt,
}
use zonegate_backend.Authorization.Progress.{StageEvent}
use zonegate_backend.Prelude.Text.{◌<>◌}
use zonegate_backend.Api.Guards.{
  require_console_actor, clamp, or_raise, not_found, permission_denied, conflict,
}
use zonegate_backend.Storage.{
  get_decision, get_transaction, list_decisions, get_evidence, get_evidence_plan,
  get_receipt_by_transaction_id,
}
use zonegate_backend.Authorization.Service.{resolve_hold}

unfoldable pub request_authorization : Deployment → TransactionRequest → Exec Outcome
request_authorization s tx = authorize_transaction s tx none

-- A message of the event stream.
pub data Message : Type 0 where
  stage : StageEvent → Message
  result : Outcome → Message
  error : Exception → Message

-- `on_stage`: putting on an unbounded queue does not raise.
abbrev pub on_stage : Listener
on_stage = some (λ event. false)

unfoldable pub closing : Result Exception Outcome → Message
closing (ok outcome) = result outcome
closing (err e) = error e

-- `run`: the queue when the pipeline has ended, with the sentinel `none` at its end. The queue is
-- new, and `events` of the world is what the listener has put on it.
unfoldable pub run_stream : Deployment → TransactionRequest → World → List (Option Message) × World
unfolding closing
run_stream s tx w =
    let (r, w') = authorize_transaction s tx on_stage (record w { events = [] }) in
    (map (λ e. some (stage e)) w'.events ++ some (closing r) ∷ none ∷ [], w')

-- `events`: what has been yielded, and whether the loop has ended or still waits for a message.
unfoldable pub read_queue : List (Option Message) → List Message × Bool
read_queue [] = ([], false)
read_queue (none ∷ queue) = ([], true)
read_queue (some message ∷ queue) = let (rest, ended) = read_queue queue in (message ∷ rest, ended)

unfoldable pub stream_authorization :
    Deployment → TransactionRequest → World → (List Message × Bool) × World
unfolding run_stream read_queue
stream_authorization s tx w = let (queue, w') = run_stream s tx w in (read_queue queue, w')

unfoldable pub only_pending : Bool → List PolicyDecision → List PolicyDecision
only_pending pending decisions =
    if pending then keep (λ d. not (is_some d.resolution)) decisions else decisions

unfoldable pub list_authorizations :
    Option DecisionOutcome → Bool → Option ℕ → Exec (List PolicyDecision)
unfolding only_pending
list_authorizations outcome pending limit = do
  decisions ← list_decisions outcome (clamp 500 limit)
  pure (only_pending pending decisions)

pub record DecisionContext : Type 0 where
  pub decision : PolicyDecision
  pub transaction : Option TransactionRequest
  pub evidence : Option CanonicalEvidence
  pub evidence_plan : Option ValidatedEvidencePlan
  pub receipt : Option Receipt

unfoldable pub context_of : PolicyDecision → Exec DecisionContext
context_of d = do
  transaction ← get_transaction d.transaction_id
  evidence ← get_evidence d.transaction_id
  plan ← get_evidence_plan d.transaction_id
  receipt ← get_receipt_by_transaction_id d.transaction_id
  pure (record {
    decision = d;
    transaction = transaction;
    evidence = evidence;
    evidence_plan = plan;
    receipt = receipt;
  })

unfoldable pub contexts_of : List PolicyDecision → Exec (List DecisionContext)
contexts_of [] = pure []
contexts_of (d ∷ ds) = do context ← context_of d; rest ← contexts_of ds; pure (context ∷ rest)

unfoldable pub list_contexts :
    Option DecisionOutcome → Bool → Option ℕ → Exec (List DecisionContext)
unfolding only_pending contexts_of
list_contexts outcome pending limit = do
  decisions ← list_decisions outcome (clamp 100 limit)
  contexts_of (only_pending pending decisions)

abbrev pub decision_detail : String → String
decision_detail decision_id = "Authorization decision '" <> decision_id <> "' not found"

unfoldable pub read_decision : String → Exec PolicyDecision
read_decision decision_id = do
  found ← get_decision decision_id
  or_raise (not_found (decision_detail decision_id)) found

unfoldable pub read_context : String → Exec DecisionContext
read_context decision_id = do
  found ← get_decision decision_id
  d ← or_raise (not_found (decision_detail decision_id)) found
  context_of d

-- `resolved_by` of the body is accepted and ignored.
pub record HoldResolutionRequest : Type 0 where
  pub outcome : DecisionOutcome
  pub resolved_by : Option String
  pub note : String

-- The three `except` clauses of `resolve_hold`.
unfoldable pub hold_to_http : Exception → Exec Outcome
hold_to_http (decision_not_found detail) = raise (not_found detail)
hold_to_http (hold_authority_error detail) = raise (permission_denied detail)
hold_to_http (hold_resolution_error detail) = raise (conflict detail)
hold_to_http e = raise e

unfoldable pub resolve_endpoint :
    Deployment → Option String → String → HoldResolutionRequest → Exec Outcome
unfolding hold_to_http
resolve_endpoint s cookie decision_id request = do
  resolver ← require_console_actor cookie
  catch
      (resolve_hold s decision_id request.outcome resolver.actor_id request.note
        (some resolver.role))
      hold_to_http
