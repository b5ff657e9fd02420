-- ===== src/Authorization/Service/Safety.antt =====
-- That every outcome of authorization/service.py is on record, and that only a denial goes without
-- the carrier's word.
use mathlib.Core.Path.{subst}
use zonegate_backend.Prelude.{◌≡◌, some, ℕ, ◌≢◌, ok, refl, String, ◌∙◌, Option-cases, ap, inl, inr}
use zonegate_backend.Authorization.Service.Deployment.{
  Deployment, Listener, Outcome, refuse, Triple-emit,
}
use zonegate_backend.Domain.{DeviceBinding, TransactionRequest, Actor, DecisionOutcome}
use zonegate_backend.Runtime.Triples.{
  Triple, Triple-after, Triple-weaken, Triple-bind, Triple-reading, Triple-now, Triple-given,
  Triple-writing, Triple-any,
}
use zonegate_backend.Runtime.{Tables, World}
use zonegate_backend.Authorization.Service.Results.{IsSettled, refuse-IsSettled}
use zonegate_backend.Authorization.Service.Earned.{IsEarned}
use zonegate_backend.Storage.{save_transaction, get_device_binding, get_actor}
use zonegate_backend.Authorization.Service.Justified.{policy_stage-IsJustified}
use zonegate_backend.Authorization.Service.Pipeline.{
  authorize_transaction, policy_stage, binding_stage,
}

-- No denial goes out unless the actor and the binding on record back it with the carrier's word.
abbrev pub IsBacked : Deployment → TransactionRequest → Tables → Outcome → Type 0
IsBacked s tx before out =
    out.0.decision ≢ DecisionOutcome.deny
    → (actor : Actor) × (binding : DeviceBinding) × (before.actors tx.actor_id ≡ some actor)
      × (before.bindings tx.actor_id ≡ some binding)
      × IsEarned s tx actor binding

-- The tables still have the roster and the bindings that they had.
abbrev SameRoster : Tables → Tables → Type 0
SameRoster before t = (t.actors ≡ before.actors) × (t.bindings ≡ before.bindings)

module _ (s : Deployment) (listener : Listener) (tx : TransactionRequest) (before : Tables)
    (keyed : (k : String) (a : Actor) → before.actors k ≡ some a → a.actor_id ≡ k) where
  abbrev Backed : Outcome → Tables → Type 0
  Backed out t = IsSettled s tx tx.actor_id out t × IsBacked s tx before out

  refuse-Backed : (time : ℕ) (reason : String) → Triple (λ t. Unit) (refuse tx time reason) Backed
  refuse-Backed time reason =
      Triple-weaken _ (λ out t (settled, denied). (settled, λ h. absurd (h denied)))
        (refuse-IsSettled s tx tx.actor_id time reason)

  policy_stage-Backed :
      (time : ℕ) (actor : Actor) (binding : DeviceBinding)
      → before.actors tx.actor_id ≡ some actor
      → before.bindings tx.actor_id ≡ some binding
      → Triple (λ t. Unit) (policy_stage s listener tx actor binding time) Backed
  policy_stage-Backed time actor binding enrolled bound =
      Triple-weaken _
        (λ out t (settled, earned). (
          subst (λ a. IsSettled s tx a out t) (keyed tx.actor_id actor enrolled) settled,
          λ h. (actor, binding, enrolled, bound, earned h),
        ))
        (policy_stage-IsJustified s listener tx actor time binding)

  binding_stage-Backed :
      (time : ℕ) (actor : Actor)
      → before.actors tx.actor_id ≡ some actor
      → Triple (SameRoster before) (binding_stage s listener tx time actor) Backed
  unfolding binding_stage get_device_binding
  binding_stage-Backed time actor enrolled =
      Triple-bind {Q = λ found t. (before.bindings tx.actor_id ≡ found) × Unit} _ _
        (Triple-reading (λ t. t.bindings tx.actor_id)
          (λ t (actors, bindings). (rw bindings refl, tt)))
        λ found. Triple-given _ λ bound. elim (Option-cases found) [
          | inl e ↦ rw e (Triple-after _ _ λ _. refuse-Backed time _)
          | inr (binding, e) ↦
              rw e
                (Triple-after _ _ λ _. policy_stage-Backed time actor binding enrolled (bound ∙ e))
        ]

  authorize-Backed : Triple (λ t. t ≡ before) (authorize_transaction s tx listener) Backed
  unfolding authorize_transaction save_transaction get_actor
  authorize-Backed = Triple-bind {Q = λ _ t. t ≡ before} _ _ Triple-now λ time.
      Triple-bind {Q = λ _ t. SameRoster before t} _ _
        (Triple-writing _
          (λ t same. (ap (λ (u : Tables). u.actors) same, ap (λ (u : Tables). u.bindings) same)))
        λ _. Triple-bind {Q = λ _ t. SameRoster before t} _ _ (Triple-emit listener _ _ _) λ _.
          Triple-bind {Q = λ found t. (before.actors tx.actor_id ≡ found) × SameRoster before t} _ _
            (Triple-reading (λ t. t.actors tx.actor_id) (λ t same. (rw (same.0) refl, same)))
            λ found. Triple-given _ λ known. elim (Option-cases found) [
              | inl e ↦ rw e (Triple-any (Triple-after _ _ λ _. refuse-Backed time _))
              | inr (actor, e) ↦ rw e (binding_stage-Backed time actor (known ∙ e))
            ]

-- Whatever is on record beforehand (actors under their own identifiers) and whichever storage calls
-- or listener calls fail: if `authorize_transaction` returns, its decision and receipt are about this
-- transaction, agree, are unresolved and are what the tables and their indexes now hold; and the
-- receipt names a token exactly if the decision approves, which the tables then hold, unclaimed,
-- signed, valid for 300 seconds and scoped to the transaction and its actor.
pub authorize_settles :
    (s : Deployment) (listener : Listener) (tx : TransactionRequest) (w : World)
    → ((k : String) (a : Actor) → w.tables.actors k ≡ some a → a.actor_id ≡ k)
    → (out : Outcome) → (authorize_transaction s tx listener w).0 ≡ ok out
    → IsSettled s tx tx.actor_id out (authorize_transaction s tx listener w).1.tables
authorize_settles s listener tx w keyed out e =
    ((authorize-Backed s listener tx w.tables keyed).at w refl out e).0

-- If actors are on record under their own identifiers and `authorize_transaction` returns anything
-- but a denial, then beforehand the actor was enrolled and bound to a device, the binding is of the
-- actor's own registered number and device, the actor had the permission for the action, the action
-- is the one with an evidence policy, and the carrier positively confirmed each mandatory check that
-- it can attest: the number, and that the device is inside the zone. Whatever the planner, the
-- evaluator, the listener or the policy configuration do.
pub authorize_backed :
    (s : Deployment) (listener : Listener) (tx : TransactionRequest) (w : World)
    → ((k : String) (a : Actor) → w.tables.actors k ≡ some a → a.actor_id ≡ k)
    → (out : Outcome) → (authorize_transaction s tx listener w).0 ≡ ok out
    → out.0.decision ≢ DecisionOutcome.deny
    → (actor : Actor) × (binding : DeviceBinding) × (w.tables.actors tx.actor_id ≡ some actor)
      × (w.tables.bindings tx.actor_id ≡ some binding)
      × IsEarned s tx actor binding
authorize_backed s listener tx w keyed out e =
    ((authorize-Backed s listener tx w.tables keyed).at w refl out e).1
