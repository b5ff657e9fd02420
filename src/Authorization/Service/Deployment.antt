-- ===== src/Authorization/Service/Deployment.antt =====
-- What an `AuthorizationService` of authorization/service.py is built from, and the steps that its
-- methods share.
use zonegate_backend.Prelude.{
  String, Option, ℕ, ok, Bool, List, some, ◌∷◌, if◌then◌else◌, [], err, none, ◌++◌, Result, ◌≡◌,
  true, false, sym, refl,
}
use zonegate_backend.Authorization.Progress.{Stage, StageEvent, StageStatus, stage_label}
use zonegate_backend.Domain.{TransactionRequest, PolicyDecision, Receipt, KindSet, DecisionOutcome}
use zonegate_backend.Authorization.Token.{Scope, Formats, issue_token}
use zonegate_backend.Runtime.{
  Exec, listener_failure, ◌>>=◌, ◌>>◌, draw, now, pure, Tables, Exception, World,
}
use zonegate_backend.Prelude.Text.{◌<>◌}
use zonegate_backend.Evidence.Gateway.{Geofence, Carrier}
use mathlib.Core.Path.{subst}
use zonegate_backend.Agent.{EvidencePlanner, ContextEvaluator}
use zonegate_backend.Storage.{save_decision, save_receipt, save_token}
use zonegate_backend.Runtime.Triples.{Triple}

pub record Deployment : Type 0 where
  pub attestable : Option KindSet
  pub registry : List (String × Geofence)
  pub carrier : Carrier
  pub formats : Formats
  pub planner : Option EvidencePlanner
  pub evaluator : Option ContextEvaluator
  -- the graph library failing on its own, at the planning and at the evaluation
  pub planning_fault : Option String
  pub evaluation_fault : Option String

-- Somebody who is told of each stage; the answer is whether the call raised.
abbrev pub Listener : Type 0
Listener = Option (StageEvent → Bool)

-- `make_emitter(listener)(stage, status, detail)` of progress.py
unfoldable pub emit : Listener → Stage → StageStatus → String → Exec (Unit {0})
emit none stage status detail w = (ok tt, w)
emit (some raises) stage status detail w =
    let event : StageEvent = record {
      stage = stage;
      status = status;
      label = stage_label stage;
      detail = detail;
    } in
    if raises event
    then (err listener_failure, w)
    else (ok tt, record w { events = w.events ++ event ∷ [] })

-- The receipt of a decision.
unfoldable pub receipt_for : PolicyDecision → ℕ → Option String → Receipt
receipt_for d time token = record {
  receipt_id = "rcpt_" <> d.decision_id;
  decision_id = d.decision_id;
  transaction_id = d.transaction_id;
  decision = d.decision;
  issued_at = time;
  token = token;
}

unfoldable pub denial : String → TransactionRequest → ℕ → String → PolicyDecision
denial id tx time reason = record {
  decision_id = "dec_" <> id;
  transaction_id = tx.transaction_id;
  decision = DecisionOutcome.deny;
  reasons = reason ∷ [];
  required_authority = none;
  context_evaluation = none;
  evidence_summary = none;
  decided_at = time;
  resolution = none;
}

abbrev pub Outcome : Type 0
Outcome = PolicyDecision × Receipt

-- `save_decision` and then `save_receipt`, and the pair that is returned.
unfoldable pub conclude : PolicyDecision → Receipt → Exec Outcome
conclude d r = do save_decision d; save_receipt r; pure (d, r)

-- The denial that each early exit of the pipeline records.
unfoldable pub refuse : TransactionRequest → ℕ → String → Exec Outcome
unfolding conclude
refuse tx time reason = do
  id ← draw
  let d = denial id tx time reason
  conclude d (receipt_for d time none)

-- `token_service.issue_token` for a transaction and a decision, saved.
unfoldable pub issue_and_save : Deployment → Scope → Exec (Option String)
issue_and_save s scope = do
  issued_at ← now
  id ← draw
  let token = issue_token s.formats ("tok_" <> id) issued_at 300 scope
  save_token token
  pure (some token.token_id)

tables-if :
    {A : Type 0} {t : Tables} (b : Bool) (x y : Result Exception A × World)
    → x.1.tables ≡ t
    → y.1.tables ≡ t
    → (if b then x else y).1.tables ≡ t
tables-if true x y hx hy = hx
tables-if false x y hx hy = hy

-- Telling a listener leaves the tables.
pub Triple-emit :
    {P : Tables → Type 0} (listener : Listener) (stage : Stage) (status : StageStatus)
    (detail : String)
    → Triple P (emit listener stage status detail) (λ _ t. P t)
unfolding emit
Triple-emit {P} none stage status detail = record { at = λ w p a e. p }
Triple-emit {P} (some raises) stage status detail = record {
  at = λ w p a e. subst P (sym (tables-if (raises _) _ _ refl refl)) p;
}
