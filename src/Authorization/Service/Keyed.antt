-- ===== src/Authorization/Service/Keyed.antt =====
-- That the writes of authorization/service.py keep every record under its own identifier.
use zonegate_backend.Runtime.Keeping.{Keeps, Keeps-writing}
use zonegate_backend.Runtime.{Tables, writing}
use zonegate_backend.Storage.{
  save_token, save_decision, save_receipt, with_receipt, with_token, with_decision,
  save_transaction, save_evidence_plan, save_evidence, save_context_evaluation, save_actor,
}
use zonegate_backend.Prelude.{
  ◌≡◌, String, Table, some, update, Bool-cases, ◌==◌, inl, arith, ap, sym, ◌∙◌, eq_iff, inr, refl,
}
use zonegate_backend.Domain.{Actor, Receipt, PolicyDecision}
use zonegate_backend.Authorization.Token.{ScopedAuthorizationToken}
use zonegate_backend.Authorization.Service.Kept.{Allows}

-- Actors, decisions, receipts and tokens are on record under their own identifiers.
pub record IsKeyed (t : Tables) : Type 0 where
  pub actors : (k : String) (a : Actor) → t.actors k ≡ some a → a.actor_id ≡ k
  pub decisions : (k : String) (d : PolicyDecision) → t.decisions k ≡ some d → d.decision_id ≡ k
  pub receipts : (k : String) (r : Receipt) → t.receipts k ≡ some r → r.receipt_id ≡ k
  pub tokens : (k : String) (x : ScopedAuthorizationToken) → t.tokens k ≡ some x → x.token_id ≡ k

updated_key :
    {V : Type 0} (key : V → String) (f : Table V) (v : V)
    → ((k : String) (a : V) → f k ≡ some a → key a ≡ k)
    → (k : String) (a : V) → update f (key v) v k ≡ some a
    → key a ≡ k
updated_key key f v h k a e = elim (Bool-cases (key v == k)) [
  | inl same ↦
      let v_is : v ≡ a = ground (arith, e, same) in ap key (sym v_is) ∙ (eq_iff (key v) k).0 same
  | inr other ↦ h k a (ground (arith, e, other))
]

pub Keeps-save_actor : (a : Actor) → Keeps IsKeyed (save_actor a)
unfolding save_actor
Keeps-save_actor a = Keeps-writing _ λ t p. record {
  actors = updated_key (λ (x : Actor). x.actor_id) t.actors a p.actors;
  decisions = p.decisions;
  receipts = p.receipts;
  tokens = p.tokens;
}

Keeps-save_decision : (d : PolicyDecision) → Keeps IsKeyed (save_decision d)
unfolding save_decision with_decision
Keeps-save_decision d = Keeps-writing _ λ t p. record {
  actors = p.actors;
  decisions = updated_key (λ (x : PolicyDecision). x.decision_id) t.decisions d p.decisions;
  receipts = p.receipts;
  tokens = p.tokens;
}

Keeps-save_receipt : (r : Receipt) → Keeps IsKeyed (save_receipt r)
unfolding save_receipt with_receipt
Keeps-save_receipt r = Keeps-writing _ λ t p. record {
  actors = p.actors;
  decisions = p.decisions;
  receipts = updated_key (λ (x : Receipt). x.receipt_id) t.receipts r p.receipts;
  tokens = p.tokens;
}

Keeps-save_token : (x : ScopedAuthorizationToken) → Keeps IsKeyed (save_token x)
unfolding save_token with_token
Keeps-save_token x = Keeps-writing _ λ t p. record {
  actors = p.actors;
  decisions = p.decisions;
  receipts = p.receipts;
  tokens = updated_key (λ (y : ScopedAuthorizationToken). y.token_id) t.tokens x p.tokens;
}

-- A write that leaves the four tables keeps them keyed.
pub Keeps-other :
    (write : Tables → Tables)
    → ((t : Tables)
        → ((write t).actors ≡ t.actors)
          × ((write t).decisions ≡ t.decisions)
          × ((write t).receipts ≡ t.receipts)
          × ((write t).tokens ≡ t.tokens))
    → Keeps IsKeyed (writing write)
Keeps-other write same = Keeps-writing write λ t p.
    let (actors, decisions, receipts, tokens) = same t in
    record {
      actors = rw actors p.actors;
      decisions = rw decisions p.decisions;
      receipts = rw receipts p.receipts;
      tokens = rw tokens p.tokens;
    }

pub IsKeyed-Allows : Allows IsKeyed
unfolding save_transaction save_evidence_plan save_evidence save_context_evaluation
IsKeyed-Allows = record {
  transaction = λ tx. Keeps-other _ λ t. (refl, refl, refl, refl);
  evidence_plan = λ id plan. Keeps-other _ λ t. (refl, refl, refl, refl);
  evidence = λ id evidence. Keeps-other _ λ t. (refl, refl, refl, refl);
  evaluation = λ id e. Keeps-other _ λ t. (refl, refl, refl, refl);
  decision = Keeps-save_decision;
  receipt = Keeps-save_receipt;
  token = Keeps-save_token;
}
