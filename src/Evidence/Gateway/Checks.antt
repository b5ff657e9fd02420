-- ===== src/Evidence/Gateway/Checks.antt =====
-- What evidence/gateway.py asks of the carrier, and what it records.
use zonegate_backend.Domain.{
  Actor, EvidenceKind, DeviceBinding, TransactionRequest, ValidatedEvidencePlan, CanonicalEvidence,
  mem_kind,
}
use zonegate_backend.Prelude.{
  List, String, ◌≡◌, true, none, ◌↔◌, ℕ, arith, eq_iff, [], ok, some, err, inr, ◌⊎◌, inl,
  Option-cases,
}
use zonegate_backend.Evidence.Gateway.{
  binding_mismatch, Geofence, Carrier, collect_evidence, Collected, resolve_zone, collect_checks,
  GatewayError, first_unsupported, actor_device_mismatch, unauthorized_evidence, missing_zone,
}
use zonegate_backend.Evidence.Gateway.Collecting.{
  AsksOnly-collect_checks, IsCollected, collect_checks-IsCollected,
}

-- Actor and device belong together: the five conditions of the gateway.
pub record IsBound (actor : Actor) (binding : DeviceBinding) : Type 0 where
  pub same_actor : actor.actor_id ≡ binding.actor_id
  pub same_number : actor.registered_phone_number ≡ binding.phone_number
  pub same_device : actor.registered_device_id ≡ binding.device_id
  pub active_binding : binding.is_active ≡ true
  pub active_actor : actor.enrollment_status ≡ "ACTIVE"

-- The binding is accepted exactly if the actor id, the phone number and the device id agree, the
-- binding is active and the actor's enrolment is active.
pub binding_iff :
    (actor : Actor) (binding : DeviceBinding)
    → (binding_mismatch actor binding ≡ none) ↔ IsBound actor binding
unfolding binding_mismatch
binding_iff actor binding = (
  λ h. record {
    same_actor = ground (arith, eq_iff actor.actor_id binding.actor_id);
    same_number = ground (arith, eq_iff actor.registered_phone_number binding.phone_number);
    same_device = ground (arith, eq_iff actor.registered_device_id binding.device_id);
    active_binding = ground arith;
    active_actor = ground (arith, eq_iff actor.enrollment_status "ACTIVE");
  },
  λ h. ground (
    arith,
    h.same_actor,
    h.same_number,
    h.same_device,
    h.active_binding,
    h.active_actor,
    eq_iff actor.actor_id binding.actor_id,
    eq_iff actor.registered_phone_number binding.phone_number,
    eq_iff actor.registered_device_id binding.device_id,
    eq_iff actor.enrollment_status "ACTIVE",
  ),
)

module _ (registry : List (String × Geofence)) (carrier : Carrier) (now : ℕ) (actor : Actor)
    (binding : DeviceBinding) (tx : TransactionRequest) (plan : ValidatedEvidencePlan) where
  abbrev collected : Collected CanonicalEvidence
  collected = collect_evidence registry carrier now actor binding tx plan

  collected_cases :
      (IsBound actor binding
        × ((fence : Geofence) × (resolve_zone registry tx.zone ≡ some fence)
            × (collected ≡ collect_checks carrier binding.phone_number fence plan.combined now)))
      ⊎ ((e : GatewayError) × (collected ≡ ([], err e)))
  unfolding collect_evidence
  collected_cases = elim (Option-cases (binding_mismatch actor binding)) [
    | inr (text, e) ↦ inr (actor_device_mismatch text, ground (arith, e))
    | inl bound ↦ elim (Option-cases (first_unsupported plan.combined)) [
      | inr (k, e) ↦ inr (unauthorized_evidence k, ground (arith, e, bound))
      | inl supported ↦ elim (Option-cases (resolve_zone registry tx.zone)) [
        | inl e ↦ inr (missing_zone, ground (arith, e, supported, bound))
        | inr (fence, e) ↦
            inl
              ((binding_iff actor binding).0 bound, (fence, e, ground (arith, e, supported, bound)))
      ]
    ]
  ]

  -- The carrier is asked only about kinds of the plan, and about nothing at all unless the actor
  -- and the binding belong together.
  pub asks_only_planned :
      (k : EvidenceKind)
      → mem_kind k collected.0 ≡ true
      → (mem_kind k plan.combined ≡ true) × IsBound actor binding
  asks_only_planned k h = elim collected_cases [
    | inr (e, q) ↦ absurd (ground (arith, q))
    | inl (bound, (fence, e, q)) ↦ (
      AsksOnly-collect_checks carrier binding.phone_number fence plan.combined now k (rw q at h),
      bound,
    )
  ]

  pub collected-IsBound :
      (evidence : CanonicalEvidence) → collected.1 ≡ ok evidence → IsBound actor binding
  collected-IsBound evidence h = elim collected_cases [
    | inr (e, q) ↦ absurd (ground (arith, q))
    | inl (bound, rest) ↦ bound
  ]

  -- A collection that succeeds has asked about every kind of the plan, once and in the gateway's
  -- order, and each field holds the carrier's answer: `none` where the check was not planned or the
  -- carrier declined it, never a pass. The location is asked against the zone of the request, or the
  -- default zone if the registry lacks it. No call has failed, and the KYC field stays open.
  pub records_answers :
      (evidence : CanonicalEvidence)
      → collected.1 ≡ ok evidence
      → (fence : Geofence) × (resolve_zone registry tx.zone ≡ some fence)
        × IsCollected carrier binding.phone_number fence plan.combined collected.0 evidence
  records_answers evidence h = elim collected_cases [
    | inr (e, q) ↦ absurd (ground (arith, q))
    | inl (bound, (fence, e, q)) ↦ (
      fence,
      e,
      rw q (
          (collect_checks-IsCollected carrier binding.phone_number fence plan.combined now).at
            evidence (rw q at h)),
    )
  ]
