-- ===== src/Evidence/Gateway/Zones.antt =====
-- evidence/gateway.py looks a zone up once, before it asks the carrier.
use zonegate_backend.Evidence.Gateway.{
  ◌>>=◌, collect_evidence, collect_checks, check, Collected, Carrier, read_answer, missing_zone,
  Geofence, Answer, answered, failed, resolve_zone, declined, binding_mismatch, first_unsupported,
}
use zonegate_backend.Prelude.{
  ok, List, ◌≢◌, String, err, Option, ℕ, Bool, arith, none, Option-cases, inr, inl,
}
use zonegate_backend.Domain.{
  EvidenceKind, Actor, DeviceBinding, TransactionRequest, ValidatedEvidencePlan,
}

abbrev HasZone : {A : Type 0} → Collected A → Type 0
HasZone c = c.1 ≢ err missing_zone

HasZone-check :
    {A : Type 0} (kind : EvidenceKind) (combined : List EvidenceKind) (answer : Answer A)
    (read : A → Option Bool)
    → HasZone (check kind combined answer read)
unfolding check read_answer
HasZone-check kind combined (answered a) read h = ground (arith, h)
HasZone-check kind combined declined read h = ground (arith, h)
HasZone-check kind combined (failed text) read h = ground (arith, h)

HasZone-bind :
    {A B : Type 0} (c : Collected A) (f : A → Collected B)
    → HasZone c
    → ((a : A) → HasZone (f a))
    → HasZone (c >>= f)
HasZone-bind (asked, ok a) f hc hf = hf a
HasZone-bind (asked, err e) f hc hf = λ h. hc (cc h)

HasZone-collect_checks :
    (carrier : Carrier) (phone : String) (fence : Geofence) (combined : List EvidenceKind) (now : ℕ)
    → HasZone (collect_checks carrier phone fence combined now)
unfolding collect_checks
HasZone-collect_checks carrier phone fence combined now =
    HasZone-bind _ _ (HasZone-check _ combined _ _) λ a.
      HasZone-bind _ _ (HasZone-check _ combined _ _) λ b.
        HasZone-bind _ _ (HasZone-check _ combined _ _) λ c.
          HasZone-bind _ _ (HasZone-check _ combined _ _)
            λ d. HasZone-bind _ _ (HasZone-check _ combined _ _) λ e. λ h. cc h

-- The lookup of the default zone fails only where the registry has no default zone.
pub collect_evidence-zoned :
    (registry : List (String × Geofence)) (carrier : Carrier) (now : ℕ) (actor : Actor)
    (binding : DeviceBinding) (tx : TransactionRequest) (plan : ValidatedEvidencePlan)
    → resolve_zone registry tx.zone ≢ none
    → (collect_evidence registry carrier now actor binding tx plan).1 ≢ err missing_zone
unfolding collect_evidence
collect_evidence-zoned registry carrier now actor binding tx plan known =
    elim (Option-cases (binding_mismatch actor binding)) [
      | inr (text, e) ↦ rw (collect_evidence, e) (λ h. cc h)
      | inl bound ↦ elim (Option-cases (first_unsupported plan.combined)) [
        | inr (k, e) ↦ rw (collect_evidence, bound, e) (λ h. cc h)
        | inl supported ↦ elim (Option-cases (resolve_zone registry tx.zone)) [
          | inl missing ↦ absurd (known missing)
          | inr (fence, e) ↦
              rw (collect_evidence, bound, supported, e)
                (HasZone-collect_checks carrier binding.phone_number fence plan.combined now)
        ]
      ]
    ]
