-- ===== src/Evidence/Agreement.antt =====
-- evidence/plan_validator.py and evidence/gateway.py agree: a validated plan asks for nothing that
-- the gateway's static allowlist refuses.
use zonegate_backend.Evidence.WorkflowPolicy.{
  WorkflowEvidencePolicy, get_workflow_policy, release_cargo,
}
use zonegate_backend.Evidence.Gateway.{first_unsupported, supported_capabilities}
use zonegate_backend.Prelude.{
  Option, String, List, ◌≡◌, All, some, true, ◌||◌, arith, ◌∷◌, none, refl, ok, [], Bool,
  Option-cases, inl, ◌&&◌, inr, sym, ◌∙◌,
}
use mathlib.Core.Path.{subst}
use zonegate_backend.Domain.{
  KindSet, EvidenceKind, mem_kind, EvidencePlan, ValidatedEvidencePlan, kyc_match, same_kind→eq,
  same_kind_refl,
}
use zonegate_backend.Evidence.PlanValidator.{validate, proposed_kinds}
use zonegate_backend.Evidence.PlanValidator.Accepting.{IsAllowed, attests}
use zonegate_backend.Evidence.PlanValidator.Plans.{validate_ok_iff, validate_members}

optional_of_allowed :
    (policy : WorkflowEvidencePolicy) (ks : List EvidenceKind) (k : EvidenceKind)
    → All (IsAllowed policy) ks
    → mem_kind k ks ≡ true
    → policy.optional k ≡ true
optional_of_allowed policy [] k h m = cc
optional_of_allowed policy (x ∷ ks) k h m =
    ground (arith, same_kind→eq x k, optional_of_allowed policy ks k h.1, h.0)

first_unsupported-none :
    (ks : List EvidenceKind)
    → ((k : EvidenceKind) → mem_kind k ks ≡ true → supported_capabilities k ≡ true)
    → first_unsupported ks ≡ none
unfolding first_unsupported
first_unsupported-none [] h = refl
first_unsupported-none (x ∷ ks) h =
    rw (h x (ground (arith, same_kind_refl x)))
      (first_unsupported-none ks (λ k m. h k (ground arith)))

known_policy :
    (workflow_name : String) (policy : WorkflowEvidencePolicy)
    → get_workflow_policy workflow_name ≡ some policy
    → policy ≡ release_cargo
unfolding get_workflow_policy
known_policy workflow_name policy h = ground arith

release_cargo-supported :
    (k : EvidenceKind)
    → (release_cargo.mandatory k || release_cargo.optional k) ≡ true
    → supported_capabilities k ≡ true
unfolding supported_capabilities
release_cargo-supported kyc_match h = h
release_cargo-supported _ h = refl

member_supported :
    (policy : WorkflowEvidencePolicy) (k : EvidenceKind) (attested proposed : Bool)
    → policy ≡ release_cargo
    → (proposed ≡ true → policy.optional k ≡ true)
    → true ≡ ((policy.mandatory k || proposed) && attested)
    → supported_capabilities k ≡ true
member_supported policy k attested proposed known optional m = release_cargo-supported k (
    subst (λ (p : WorkflowEvidencePolicy). (p.mandatory k || p.optional k) ≡ true) known
      (ground arith))

-- Every kind of a validated plan is in the gateway's allowlist, whatever the agent proposed and
-- whatever the carrier can attest: the gateway never refuses a validated plan as unauthorized.
pub validated_plan_supported :
    (attestable : Option KindSet) (workflow_name : String) (proposed : Option EvidencePlan)
    (plan : ValidatedEvidencePlan)
    → validate attestable workflow_name proposed ≡ ok plan
    → first_unsupported plan.combined ≡ none
unfolding validate
validated_plan_supported attestable workflow_name proposed plan h =
    elim (Option-cases (get_workflow_policy workflow_name)) [
      | inl e ↦ absurd (ground (arith, e))
      | inr (policy, known) ↦ first_unsupported-none plan.combined λ k m.
          member_supported policy k (attests attestable k) (mem_kind k (proposed_kinds proposed))
            (known_policy workflow_name policy known)
            (optional_of_allowed policy (proposed_kinds proposed) k
              ((validate_ok_iff attestable workflow_name policy proposed known).0 (plan, h)))
            (sym m ∙ (validate_members attestable workflow_name policy proposed known plan k h).2)
    ]
