-- ===== src/Authorization/Service/Holds/Settled.antt =====
-- That `resolve_hold` of authorization/service.py leaves what `IsResolved` says.
use zonegate_backend.Runtime.{Tables, pure}
use zonegate_backend.Authorization.Service.Resolution.{
  resolution_refusal, approve_transaction, resolution_of, settle_hold, resolve_hold,
}
use zonegate_backend.Domain.{PolicyDecision, DecisionOutcome, Receipt, is_approve}
use zonegate_backend.Prelude.{
  String, Option, some, ◌≡◌, ℕ, update, Option-cases, inl, ap, inr, ◌∙◌, refl, eq_refl,
  if◌then◌else◌,
}
use zonegate_backend.Authorization.Service.Deployment.{Deployment, issue_and_save}
use zonegate_backend.Storage.{
  save_token, get_transaction, with_token, through, with_receipt, with_decision, save_decision,
  get_receipt_by_transaction_id, save_receipt, get_decision,
}
use zonegate_backend.Authorization.Token.{Scope, issue_token}
use zonegate_backend.Runtime.Triples.{
  Triple, Triple-bind, Triple-reading, Triple-now, Triple-draw, Triple-given, Triple-writing,
  Triple-raise, Triple-weaken, Triple-pure,
}
use zonegate_backend.Authorization.Service.Results.{HoldsToken, scope_of, issued_token_stored}
use zonegate_backend.Prelude.Text.{◌<>◌}
use zonegate_backend.Authorization.Service.Holds.{
  IsResolved, IsResolvable, TokenOf, refused_unknown, receipt_before,
  resolution_refusal-IsResolvable,
}

module _ (s : Deployment) where
  issue_and_save-keeps :
      (scope : Scope) (u : Tables)
      → Triple
          (λ t. t ≡ u)
          (issue_and_save s scope)
          (λ token t.
            (t.decisions ≡ u.decisions)
            × (token_id : String) × (token ≡ some token_id)
            × HoldsToken s scope t token_id)
  unfolding issue_and_save save_token with_token
  issue_and_save-keeps scope u = Triple-bind {Q = λ _ t. t ≡ u} _ _ Triple-now λ issued_at.
      Triple-bind {Q = λ _ t. t ≡ u} _ _ Triple-draw λ id.
        let token = issue_token s.formats ("tok_" <> id) issued_at 300 scope in
        Triple-bind {Q = λ _ t. (t.decisions ≡ u.decisions) × HoldsToken s scope t token.token_id} _
          _
          (Triple-writing (with_token token) (λ t p. (
            ap (λ (x : Tables). x.decisions) p,
            issued_token_stored s scope ("tok_" <> id) issued_at t,
          )))
          λ _. Triple-pure (some token.token_id) (λ t (kept, h). (kept, token.token_id, refl, h))

  approve_transaction-TokenOf :
      (d : PolicyDecision) (u : Tables) (old : Option String)
      → Triple
          (λ t. t ≡ u)
          (approve_transaction s d)
          (λ token t.
            (t.decisions ≡ u.decisions) × TokenOf s d DecisionOutcome.approve old u token t)
  unfolding approve_transaction get_transaction
  approve_transaction-TokenOf d u old =
      Triple-bind {Q = λ found t. (u.transactions d.transaction_id ≡ found) × (t ≡ u)} _ _
        (Triple-reading (λ t. t.transactions d.transaction_id) (λ t p. (rw p refl, p)))
        λ found. Triple-given _ λ known. elim (Option-cases found) [
          | inl e ↦ rw e (Triple-raise _)
          | inr (tx, e) ↦ rw e (
              Triple-weaken _
                (λ token t (kept, id, held, holds). (kept, (tx, known ∙ e, id, held, holds)))
                (issue_and_save-keeps (scope_of tx d tx.actor_id) u))
        ]

  TokenOf-with_receipt :
      (d : PolicyDecision) (outcome : DecisionOutcome) (old : Option String) (before : Tables)
      (token : Option String) (t : Tables) (r : Receipt)
      → TokenOf s d outcome old before token t
      → TokenOf s d outcome old before token (with_receipt r t)
  unfolding with_receipt
  TokenOf-with_receipt d DecisionOutcome.approve old before token t r (tx, known, id, held, h) =
      (tx, known, id, held, record { issued_at = h.issued_at; stored = h.stored })
  TokenOf-with_receipt d DecisionOutcome.hold old before token t r given = given
  TokenOf-with_receipt d DecisionOutcome.deny old before token t r given = given

  -- The last write, with what came before it.
  finish-IsResolved :
      (id : String) (outcome : DecisionOutcome) (resolved_by note : String) (role : Option String)
      (before : Tables) (d : PolicyDecision) (time : ℕ) (token : Option String) (t : Tables)
      → before.decisions id ≡ some d
      → IsResolvable d outcome role
      → let resolved = record d {
        resolution = some (resolution_of d outcome resolved_by note time);
      } in
        let old = receipt_before before d time in
        let updated = record old { issued_at = time; token = token } in
        t.decisions ≡ update before.decisions d.decision_id resolved
        → TokenOf s d outcome old.token before token t
        → IsResolved s id outcome resolved_by note role before
            (resolved, updated)
            (with_receipt updated t)
  unfolding with_receipt
  finish-IsResolved id outcome resolved_by note role before d time token t known resolvable kept
        given =
      record {
        d = d;
        time = time;
        on_record = known;
        resolvable = resolvable;
        only_resolution = refl;
        decision_stored = kept;
        receipt_kept = refl;
        receipt_stored = rw eq_refl;
        token_given = TokenOf-with_receipt d outcome _ before token t _ given;
      }

  token-TokenOf :
      (d : PolicyDecision) (outcome : DecisionOutcome) (old : Option String) (u : Tables)
      → Triple
          (λ t. t ≡ u)
          (if is_approve outcome then approve_transaction s d else pure old)
          (λ token t. (t.decisions ≡ u.decisions) × TokenOf s d outcome old u token t)
  token-TokenOf d DecisionOutcome.approve old u = approve_transaction-TokenOf d u old
  token-TokenOf d DecisionOutcome.hold old u =
      Triple-pure old
        (λ t p. (ap (λ (x : Tables). x.decisions) p, (refl, ap (λ (x : Tables). x.tokens) p)))
  token-TokenOf d DecisionOutcome.deny old u =
      Triple-pure old
        (λ t p. (ap (λ (x : Tables). x.decisions) p, (refl, ap (λ (x : Tables). x.tokens) p)))

  TokenOf-with_decision :
      (d resolved : PolicyDecision) (outcome : DecisionOutcome) (old : Option String)
      (before : Tables) (token : Option String) (t : Tables)
      → TokenOf s d outcome old (with_decision resolved before) token t
      → TokenOf s d outcome old before token t
  unfolding with_decision
  TokenOf-with_decision d resolved DecisionOutcome.approve old before token t given = given
  TokenOf-with_decision d resolved DecisionOutcome.hold old before token t given = given
  TokenOf-with_decision d resolved DecisionOutcome.deny old before token t given = given

  settle_hold-IsResolved :
      (id : String) (outcome : DecisionOutcome) (resolved_by note : String) (role : Option String)
      (before : Tables) (d : PolicyDecision)
      → before.decisions id ≡ some d
      → IsResolvable d outcome role
      → Triple
          (λ t. t ≡ before)
          (settle_hold s d outcome resolved_by note)
          (IsResolved s id outcome resolved_by note role before)
  unfolding settle_hold save_decision get_receipt_by_transaction_id save_receipt with_decision
  settle_hold-IsResolved id outcome resolved_by note role before d known resolvable =
      Triple-bind {Q = λ _ t. t ≡ before} _ _ Triple-now λ time.
        let resolved = record d {
          resolution = some (resolution_of d outcome resolved_by note time);
        } in
        let u = with_decision resolved before in
        Triple-bind {Q = λ _ t. t ≡ u} _ _ (Triple-writing _ (λ t p. ap (with_decision resolved) p))
          λ _.
            Triple-bind
              {Q = λ found t.
                (through u.receipt_tx_index u.receipts d.transaction_id ≡ found) × (t ≡ u)}
              _ _ (Triple-reading _ (λ t p. (rw p refl, p)))
              λ found. Triple-given _ λ receipt. rw (← receipt) (
                Triple-bind _ _ (token-TokenOf d outcome (receipt_before before d time).token u)
                  λ token.
                    let updated = record (receipt_before before d time) {
                      issued_at = time;
                      token = token;
                    } in
                    Triple-bind
                      {Q = λ _ t.
                        IsResolved s id outcome resolved_by note role before (resolved, updated) t}
                      _ _
                      (Triple-writing (with_receipt updated) λ t (kept, given).
                        finish-IsResolved id outcome resolved_by note role before d time token t
                          known resolvable kept
                          (TokenOf-with_decision d resolved outcome _ before token t given))
                      λ _. Triple-pure (resolved, updated) (λ t h. h))

  pub resolve_hold-IsResolved :
      (id : String) (outcome : DecisionOutcome) (resolved_by note : String) (role : Option String)
      (before : Tables)
      → Triple
          (λ t. t ≡ before)
          (resolve_hold s id outcome resolved_by note role)
          (IsResolved s id outcome resolved_by note role before)
  unfolding resolve_hold get_decision
  resolve_hold-IsResolved id outcome resolved_by note role before =
      Triple-bind {Q = λ found t. (before.decisions id ≡ found) × (t ≡ before)} _ _
        (Triple-reading (λ t. t.decisions id) (λ t p. (rw p refl, p)))
        λ found. Triple-given _ λ known. elim (Option-cases found) [
          | inl e ↦ rw (e, refused_unknown id outcome role) (Triple-raise _)
          | inr (d, e) ↦ elim (Option-cases (resolution_refusal id (some d) outcome role)) [
            | inl passes ↦
                rw (e, passes, e)
                  (settle_hold-IsResolved id outcome resolved_by note role before d (known ∙ e)
                    (resolution_refusal-IsResolvable id d outcome role passes))
            | inr (x, refused) ↦ rw (e, refused) (Triple-raise x)
          ]
        ]
