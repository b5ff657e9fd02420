-- ===== src/Tests/Holds.antt =====
-- `resolve_hold` of authorization/service.py on a hold for the security officer.
use zonegate_backend.Authorization.Service.Holds.{IsResolved, IsResolvable}
use zonegate_backend.Runtime.Triples.{Refuses}
use zonegate_backend.Authorization.Service.Deployment.{Outcome, receipt_for}
use zonegate_backend.Prelude.{
  String, Option, some, ◌≡◌, none, arith, ◌∷◌, update, ◌≢◌, inl, eq_iff, [], inr, ok, false, ap,
  refl, err, length, ◌≤◌, All,
}
use zonegate_backend.Domain.{PolicyDecision, DecisionOutcome}
use zonegate_backend.Runtime.{Tables, World, ◌>>=◌, now, hold_resolution_error}
use zonegate_backend.Authorization.Roles.{holds_authority, normalize_role}
use zonegate_backend.Authorization.Service.{resolve_hold, resolution_of}
use zonegate_backend.Tests.Fixtures.{enrolled, port, world_of, no_table, release}
use zonegate_backend.Prelude.Text.{drop_prefix, upper, strip}
use zonegate_backend.Authorization.Service.Holds.Once.{
  resolve_refused, resolve_result, resolve_once,
}
use zonegate_backend.Authorization.Service.Holds.Lost.{lost_message, resolve_lost}
use zonegate_backend.Storage.{with_decision, list_decisions, outcome_passes}

-- A hold for the security officer, its request and its receipt on record.
abbrev pub held : PolicyDecision
held = record {
  decision_id = "dec_9";
  transaction_id = "tx_1";
  decision = DecisionOutcome.hold;
  reasons = "swap" ∷ [];
  required_authority = some "ROLE_SECURITY_OFFICER";
  context_evaluation = none;
  evidence_summary = none;
  decided_at = 900;
  resolution = none;
}

abbrev held_other : PolicyDecision
held_other = record held { decision_id = "dec_10" }

abbrev pub holding : Tables
holding = record enrolled {
  transactions = update no_table "tx_1" release;
  decisions = update no_table "dec_9" held;
  decision_tx_index = update no_table "tx_1" "dec_9";
  decision_ids = "dec_9" ∷ [];
}

abbrev settled : PolicyDecision
settled = record held {
  resolution = some (resolution_of held DecisionOutcome.approve "bob" "seen" 1000);
}

abbrev settled_outcome : Outcome
settled_outcome = (settled, record (receipt_for held 1000 none) { token = some "tok_0" })

abbrev officer : Option String
officer = some "security_officer"

resolve_test :
    (resolve_hold port "dec_9" DecisionOutcome.approve "bob" "seen" officer (world_of holding)).0
    ≡ ok settled_outcome
unfolding resolve_hold ◌>>=◌ zonegate_backend.Storage.get_decision zonegate_backend.Runtime.reading
    zonegate_backend.Authorization.Service.resolution_refusal holds_authority normalize_role
    drop_prefix upper strip zonegate_backend.Authorization.Service.settle_hold now
    zonegate_backend.Storage.save_decision zonegate_backend.Runtime.writing
    zonegate_backend.Storage.get_receipt_by_transaction_id
    zonegate_backend.Authorization.Service.approve_transaction
    zonegate_backend.Storage.get_transaction
    zonegate_backend.Authorization.Service.Deployment.issue_and_save receipt_for
    zonegate_backend.Authorization.Service.authority_role resolution_of
    zonegate_backend.Authorization.Token.issue_token zonegate_backend.Runtime.call
    zonegate_backend.Runtime.draw zonegate_backend.Runtime.pure
    zonegate_backend.Storage.save_receipt zonegate_backend.Storage.save_token
    zonegate_backend.Storage.with_decision zonegate_backend.Prelude.Text.decimal
resolve_test = refl

resolve_result_example :
    IsResolved port "dec_9" DecisionOutcome.approve "bob" "seen" officer holding settled_outcome
      (resolve_hold port "dec_9" DecisionOutcome.approve "bob" "seen" officer
        (world_of holding)).1.tables
resolve_result_example =
    resolve_result port "dec_9" DecisionOutcome.approve "bob" "seen" officer (world_of holding)
      settled_outcome resolve_test

supervisor_lacks : holds_authority (some "CARGO_SUPERVISOR") held.required_authority ≡ false
unfolding holds_authority normalize_role upper strip drop_prefix
supervisor_lacks = refl

not_for_supervisor :
    (d : PolicyDecision)
    → holding.decisions "dec_9" ≡ some d
    → ¬ IsResolvable d DecisionOutcome.approve (some "CARGO_SUPERVISOR")
not_for_supervisor d e r =
    let is_held : held ≡ d = cc e in
    elim r.authorized [
      | inl nobody ↦ cc nobody
      | inr authorized ↦ cc (
        authorized,
        supervisor_lacks,
        ap (λ (x : PolicyDecision). holds_authority (some "CARGO_SUPERVISOR") x.required_authority)
            is_held,
      )
    ]

resolve_refused_example :
    Refuses
      (resolve_hold port "dec_9" DecisionOutcome.approve "eve" "" (some "CARGO_SUPERVISOR"))
      (world_of holding)
resolve_refused_example =
    resolve_refused port "dec_9" DecisionOutcome.approve "eve" "" (some "CARGO_SUPERVISOR")
      (world_of holding) not_for_supervisor

holding_keyed : (d : PolicyDecision) → holding.decisions "dec_9" ≡ some d → d.decision_id ≡ "dec_9"
holding_keyed d h = ground (arith, h)

abbrev after_resolution : World
after_resolution =
    (resolve_hold port "dec_9" DecisionOutcome.approve "bob" "seen" officer (world_of holding)).1

-- Another decision has been stored in between.
abbrev much_later : World
much_later = record after_resolution {
  tables = record after_resolution.tables {
    decisions = update after_resolution.tables.decisions "dec_10" held_other;
  };
}

resolve_once_example :
    (resolve_hold port "dec_9" DecisionOutcome.deny "carol" "" none much_later).0
    ≢ ok settled_outcome
resolve_once_example =
    resolve_once port "dec_9" DecisionOutcome.approve "bob" "seen" officer (world_of holding)
      much_later settled_outcome holding_keyed resolve_test refl DecisionOutcome.deny "carol" ""
      none settled_outcome

abbrev forgotten : Tables
forgotten = record holding { transactions = no_table }

held-IsResolvable : IsResolvable held DecisionOutcome.approve officer
unfolding holds_authority normalize_role upper strip drop_prefix
held-IsResolvable = record {
  held = refl;
  unresolved = refl;
  authorized = inr refl;
  final = λ h. cc h;
}

resolve_lost_example :
    resolve_hold port "dec_9" DecisionOutcome.approve "bob" "seen" officer (world_of forgotten) ≡ (
      err (hold_resolution_error (lost_message port held "bob" "seen" officer)),
      record (world_of forgotten) { tables = with_decision settled forgotten; ticks = 1 },
    )
resolve_lost_example =
    resolve_lost port held "bob" "seen" officer "dec_9" (world_of forgotten) refl refl
      held-IsResolvable refl

listed_test : (list_decisions (some DecisionOutcome.hold) 10 (world_of holding)).0 ≡ ok (held ∷ [])
unfolding list_decisions zonegate_backend.Storage.collect zonegate_backend.Storage.outcome_passes
    zonegate_backend.Runtime.reading zonegate_backend.Runtime.call
listed_test = refl
