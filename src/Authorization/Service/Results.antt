-- ===== src/Authorization/Service/Results.antt =====
-- What `authorize_transaction` of authorization/service.py returns and leaves in the store.
use mathlib.Core.Path.{subst, subst₂}
use zonegate_backend.Authorization.Service.Deployment.{
  conclude, refuse, Deployment, Outcome, denial, receipt_for, issue_and_save,
}
use zonegate_backend.Domain.{
  TransactionRequest, PolicyDecision, Receipt, is_approve, Actor, DecisionOutcome,
}
use zonegate_backend.Storage.{
  save_decision, save_receipt, with_receipt, with_decision, save_token, with_token,
}
use zonegate_backend.Authorization.Token.{Scope, issue_token}
use zonegate_backend.Prelude.{
  String, ℕ, ◌≡◌, some, none, is_some, ap, sym, refl, Option, eq_refl, if◌then◌else◌, Bool-cases,
  inl, inr,
}
use zonegate_backend.Runtime.Triples.{
  Triple, Triple-after, Triple-bind, Triple-writing, Triple-pure, Triple-weaken,
}
use zonegate_backend.Runtime.{draw, Tables, now, pure}
use zonegate_backend.Prelude.Text.{◌<>◌}
use zonegate_backend.Authorization.Service.Settlement.{settle}

-- The scope of a token that a decision on a transaction gives.
abbrev pub scope_of : TransactionRequest → PolicyDecision → String → Scope
scope_of tx d actor_id = record {
  actor_id = actor_id;
  action = tx.action;
  resource_id = tx.resource_id;
  zone = tx.zone;
  decision_id = d.decision_id;
}

-- The tables hold a fresh, unclaimed token under the given identifier, signed, and for that scope.
pub record HoldsToken (s : Deployment) (scope : Scope) (t : Tables) (token_id : String)
    : Type 0 where
  pub issued_at : ℕ
  pub stored : t.tokens token_id ≡ some (issue_token s.formats token_id issued_at 300 scope)

-- The decision and the receipt agree and are on record, and there is a token, on the receipt and on
-- record, exactly if the decision approves.
pub record IsSettled (s : Deployment) (tx : TransactionRequest) (actor_id : String) (out : Outcome)
    (t : Tables) : Type 0 where
  pub for_transaction : out.0.transaction_id ≡ tx.transaction_id
  pub same_decision : out.1.decision_id ≡ out.0.decision_id
  pub same_outcome : out.1.decision ≡ out.0.decision
  pub same_transaction : out.1.transaction_id ≡ tx.transaction_id
  pub decision_stored : t.decisions out.0.decision_id ≡ some out.0
  pub receipt_stored : t.receipts out.1.receipt_id ≡ some out.1
  pub decision_indexed : t.decision_tx_index tx.transaction_id ≡ some out.0.decision_id
  pub receipt_indexed : t.receipt_tx_index tx.transaction_id ≡ some out.1.receipt_id
  pub unresolved : out.0.resolution ≡ none
  pub token_iff : is_some out.1.token ≡ is_approve out.0.decision
  pub token_stored :
      (token_id : String)
      → out.1.token ≡ some token_id
      → HoldsToken s (scope_of tx out.0 actor_id) t token_id

-- The last two writes.
conclude-stores :
    {P : Tables → Type 0} (d : PolicyDecision) (r : Receipt) (R : Outcome → Tables → Type 0)
    → ((t : Tables) → P t → R (d, r) (with_receipt r (with_decision d t)))
    → Triple P (conclude d r) R
unfolding conclude save_decision save_receipt
conclude-stores {P} d r R h =
    Triple-bind {Q = λ _ t. (u : Tables) × P u × (t ≡ with_decision d u)} _ _
      (Triple-writing (with_decision d) (λ t p. (t, p, refl)))
      λ _.
        Triple-bind {Q = λ _ t. (u : Tables) × P u × (t ≡ with_receipt r (with_decision d u))} _ _
          (Triple-writing (with_receipt r) (λ t (u, p, e). (u, p, ap (with_receipt r) e)))
          λ _. Triple-pure (d, r) (λ t (u, p, e). subst (R (d, r)) (sym e) (h u p))

pub issued_token_stored :
    (s : Deployment) (scope : Scope) (id : String) (issued_at : ℕ) (t : Tables)
    → HoldsToken s scope
        (with_token (issue_token s.formats id issued_at 300 scope) t)
        (issue_token s.formats id issued_at 300 scope).token_id
unfolding with_token issue_token
issued_token_stored s scope id issued_at t = record { issued_at = issued_at; stored = rw eq_refl }

module _ (s : Deployment) (tx : TransactionRequest) (actor_id : String) where
  IsSettled-stores :
      (d : PolicyDecision) (time : ℕ) (token : Option String) (t : Tables)
      → d.transaction_id ≡ tx.transaction_id
      → d.resolution ≡ none
      → is_some token ≡ is_approve d.decision
      → ((token_id : String)
          → token ≡ some token_id
          → HoldsToken s (scope_of tx d actor_id) t token_id)
      → let r = receipt_for d time token in
        IsSettled s tx actor_id (d, r) (with_receipt r (with_decision d t))
  unfolding receipt_for with_receipt with_decision
  IsSettled-stores d time token t same open_still token_same issued = record {
    for_transaction = same;
    same_decision = refl;
    same_outcome = refl;
    same_transaction = same;
    decision_stored = rw eq_refl;
    receipt_stored = rw eq_refl;
    decision_indexed = rw (← same, eq_refl);
    receipt_indexed = rw (← same, eq_refl);
    unresolved = open_still;
    token_iff = token_same;
    token_stored =
        λ id e. let k = issued id e in record { issued_at = k.issued_at; stored = k.stored };
  }

  pub refuse-IsSettled :
      (time : ℕ) (reason : String)
      → Triple
          (λ t. Unit)
          (refuse tx time reason)
          (λ out t. IsSettled s tx actor_id out t × (out.0.decision ≡ DecisionOutcome.deny))
  unfolding refuse denial
  refuse-IsSettled time reason = Triple-after draw _ λ id. conclude-stores _ _ _ λ t p. (
    IsSettled-stores (denial id tx time reason) time none t refl refl refl (λ token_id e. cc),
    refl,
  )

  issue_and_save-HoldsToken :
      (scope : Scope)
      → Triple
          (λ t. Unit)
          (issue_and_save s scope)
          (λ token t. (token_id : String) × (token ≡ some token_id) × HoldsToken s scope t token_id)
  unfolding issue_and_save save_token
  issue_and_save-HoldsToken scope = Triple-after now _ λ issued_at. Triple-after draw _ λ id.
      let token = issue_token s.formats ("tok_" <> id) issued_at 300 scope in
      Triple-bind {Q = λ _ t. HoldsToken s scope t token.token_id} _ _
        (Triple-writing (with_token token)
          λ t p. issued_token_stored s scope ("tok_" <> id) issued_at t)
        λ _. Triple-pure (some token.token_id) λ t h. (token.token_id, refl, h)

  -- The token of step 11 is there exactly if the decision approves.
  token-HoldsToken :
      (d : PolicyDecision) (actor : Actor)
      → actor.actor_id ≡ actor_id
      → Triple
          (λ t. Unit)
          (if is_approve d.decision
            then issue_and_save s (scope_of tx d actor.actor_id)
            else pure none)
          (λ token t.
            (is_some token ≡ is_approve d.decision)
            × ((token_id : String)
                → token ≡ some token_id
                → HoldsToken s (scope_of tx d actor_id) t token_id))
  token-HoldsToken d actor same = elim (Bool-cases (is_approve d.decision)) [
    | inl approves ↦ rw approves (
        Triple-weaken _
          (λ token t (id, held, holds). (
            rw held,
            λ token_id e.
                subst₂ (λ (x : String) (a : String). HoldsToken s (scope_of tx d a) t x)
                  (let same_id : id ≡ token_id = cc (held, e) in same_id) same holds,
          ))
          (issue_and_save-HoldsToken (scope_of tx d actor.actor_id)))
    | inr not_approves ↦ rw not_approves (Triple-pure none (λ t p. (refl, λ id e. cc)))
  ]

  pub settle-IsSettled :
      (d : PolicyDecision) (actor : Actor) (time : ℕ)
      → actor.actor_id ≡ actor_id
      → d.transaction_id ≡ tx.transaction_id
      → d.resolution ≡ none
      → Triple
          (λ t. Unit)
          (settle s tx actor time d)
          (λ out t. IsSettled s tx actor_id out t × (out.0 ≡ d))
  unfolding settle
  settle-IsSettled d actor time same_actor same open_still =
      Triple-bind _ _ (token-HoldsToken d actor same_actor) λ token.
        conclude-stores _ _ _ λ t (token_same, issued).
          (IsSettled-stores d time token t same open_still token_same issued, refl)
