-- ===== src/Authorization/Service/Holds/Lost.antt =====
-- A hold that is approved when its transaction is gone (`resolve_hold` of authorization/service.py).
use zonegate_backend.Authorization.Service.Deployment.{Deployment}
use zonegate_backend.Domain.{PolicyDecision, DecisionOutcome}
use zonegate_backend.Prelude.{String, Option, ◌≡◌, [], none, err, ◌∙◌, refl, ℕ, some, ◌+◌}
use zonegate_backend.Storage.{
  get_transaction, get_decision, save_decision, get_receipt_by_transaction_id, with_decision,
}
use zonegate_backend.Runtime.{raise, World, hold_resolution_error}
use zonegate_backend.Prelude.Text.{◌<>◌}
use zonegate_backend.Runtime.Triples.{reading_runs, now_runs, writing_runs, raised_runs}
use zonegate_backend.Authorization.Service.Holds.{IsResolvable, IsResolvable-resolution_refusal}
use zonegate_backend.Authorization.Service.Resolution.{
  resolution_of, approve_transaction, settle_hold, resolve_hold,
}

module _ (s : Deployment) (d : PolicyDecision) (resolved_by note : String)
    (role : Option String) where
  lost_approval :
      (w : World)
      → w.faults ≡ []
      → w.tables.transactions d.transaction_id ≡ none
      → approve_transaction s d w ≡ (
        err (
            hold_resolution_error
              ("Transaction '" <> d.transaction_id <> "' is no longer on record")),
        w,
      )
  unfolding approve_transaction get_transaction raise
  lost_approval w no_faults gone = reading_runs _ _ w no_faults ∙ rw gone refl

  abbrev pub lost_message : String
  lost_message = "Transaction '" <> d.transaction_id <> "' is no longer on record"

  abbrev pub approved_at : ℕ → PolicyDecision
  approved_at time = record d {
    resolution = some (resolution_of d DecisionOutcome.approve resolved_by note time);
  }

  lost_settlement :
      (w : World)
      → w.faults ≡ []
      → w.tables.transactions d.transaction_id ≡ none
      → settle_hold s d DecisionOutcome.approve resolved_by note w ≡ (
        err (hold_resolution_error lost_message),
        record w {
          tables = with_decision (approved_at (w.clock w.ticks)) w.tables;
          ticks = w.ticks + 1;
        },
      )
  unfolding settle_hold save_decision get_receipt_by_transaction_id with_decision
  lost_settlement w no_faults gone =
      now_runs _ w
      ∙ writing_runs _ _ _ no_faults
      ∙ reading_runs _ _ _ no_faults
      ∙ raised_runs _ _ _ _ _ (lost_approval _ no_faults gone)

  -- While no storage call fails: an approval of a hold that could be approved, but whose transaction
  -- is no longer on record, raises, and yet the decision is left on record as resolved with APPROVE,
  -- without a token and without a new receipt.
  pub resolve_lost :
      (id : String) (w : World)
      → w.faults ≡ []
      → w.tables.decisions id ≡ some d
      → IsResolvable d DecisionOutcome.approve role
      → w.tables.transactions d.transaction_id ≡ none
      → resolve_hold s id DecisionOutcome.approve resolved_by note role w ≡ (
        err (hold_resolution_error lost_message),
        record w {
          tables = with_decision (approved_at (w.clock w.ticks)) w.tables;
          ticks = w.ticks + 1;
        },
      )
  unfolding resolve_hold get_decision
  resolve_lost id w no_faults on_record resolvable gone =
      let passes = IsResolvable-resolution_refusal id d DecisionOutcome.approve role resolvable in
      reading_runs _ _ w no_faults
      ∙ rw (on_record, passes, on_record) (lost_settlement w no_faults gone)
