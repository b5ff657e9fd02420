-- ===== src/Evidence/PlanValidator/Plans.antt =====
-- What the validated plans of evidence/plan_validator.py hold, and when there is one.
use zonegate_backend.Domain.Kinds.{Distinct, mem_kind-append}
use zonegate_backend.Evidence.PlanValidator.{
  accept_optional, attested_set, attested_list, PlanError, validate, proposed_kinds, enforced_plan,
  validate_for,
}
use zonegate_backend.Evidence.WorkflowPolicy.{WorkflowEvidencePolicy, get_workflow_policy}
use zonegate_backend.Prelude.{
  List, All, ◌≡◌, [], ok, inl, ◌||◌, arith, inr, Option, err, some, String, ◌↔◌, Result-cases, ◌&&◌,
  ◌∙◌, ap, ◌++◌,
}
use zonegate_backend.Domain.{
  EvidenceKind, mem_kind, KindSet, EvidencePlan, ValidatedEvidencePlan, sorted_kinds,
  mem_kind-sorted_kinds,
}
use zonegate_backend.Evidence.PlanValidator.Accepting.{
  IsAllowed, Distinct-attested_list, FirstRefused, attests, accept_optional-FirstRefused,
  Distinct-accept_optional, accept_optional-IsAllowed, attested_set-attests,
  mem_kind-accept_optional, accept_optional-total, mem_kind-attested_list, Distinct-from_keys,
  mem_kind-from_keys,
}

module _ (attestable : Option KindSet) (workflow_name : String) (policy : WorkflowEvidencePolicy)
    (proposed : Option EvidencePlan) (known : get_workflow_policy workflow_name ≡ some policy) where
  validate_inv :
      (plan : ValidatedEvidencePlan)
      → validate attestable workflow_name proposed ≡ ok plan
      → (accepted : List EvidenceKind) × (accept_optional policy [] (proposed_kinds proposed)
          ≡ ok accepted)
        × (plan ≡ enforced_plan attestable policy proposed accepted)
  unfolding validate validate_for
  validate_inv plan h = elim (Result-cases (accept_optional policy [] (proposed_kinds proposed))) [
    | inl (accepted, e) ↦ (accepted, e, ground (arith, known, e))
    | inr (e, refused) ↦ absurd (ground (arith, known, refused))
  ]

  -- For a workflow with a policy: validation succeeds exactly if every kind that the plan proposes is optional, and not forbidden,
  -- for the workflow; with no plan it always succeeds.
  pub validate_ok_iff :
      ((plan : ValidatedEvidencePlan) × (validate attestable workflow_name proposed ≡ ok plan))
      ↔ All (IsAllowed policy) (proposed_kinds proposed)
  unfolding validate validate_for
  validate_ok_iff = (
    λ (plan, h). elim (Result-cases (accept_optional policy [] (proposed_kinds proposed))) [
      | inl (accepted, e) ↦ accept_optional-IsAllowed policy [] (proposed_kinds proposed) accepted e
      | inr (e, refused) ↦ ground (arith, known)
    ],
    λ allowed.
        let (accepted, e) = accept_optional-total policy [] (proposed_kinds proposed) allowed in
        (enforced_plan attestable policy proposed accepted, ground (arith, known, e)),
  )

  -- For a workflow with a policy: a refused plan is refused for the first proposed kind that is not allowed: as forbidden if the
  -- workflow forbids it, and otherwise as unsupported.
  pub validate_error :
      (e : PlanError)
      → validate attestable workflow_name proposed ≡ err e
      → FirstRefused policy (proposed_kinds proposed) e
  unfolding validate validate_for
  validate_error e h =
      accept_optional-FirstRefused policy [] (proposed_kinds proposed) e (ground (arith, known))

  enforced_members :
      (accepted : List EvidenceKind) (k : EvidenceKind)
      → mem_kind k accepted ≡ mem_kind k (proposed_kinds proposed)
      → let plan = enforced_plan attestable policy proposed accepted in
        (mem_kind k plan.mandatory ≡ (policy.mandatory k && attests attestable k))
        × (mem_kind k plan.optional
            ≡ (mem_kind k (proposed_kinds proposed) && attests attestable k))
        × (mem_kind k plan.combined ≡ (
            (policy.mandatory k || mem_kind k (proposed_kinds proposed)) && attests attestable k))
  unfolding enforced_plan
  enforced_members accepted k m =
      let mandatory = sorted_kinds (attested_set attestable policy.mandatory) in
      let optional = attested_list attestable accepted in
      let in_mandatory : mem_kind k mandatory ≡ (policy.mandatory k && attests attestable k) =
        mem_kind-sorted_kinds _ k ∙ attested_set-attests attestable policy.mandatory k in
      let in_optional : mem_kind k optional
          ≡ (mem_kind k (proposed_kinds proposed) && attests attestable k) =
        mem_kind-attested_list attestable accepted k ∙ ap (λ b. b && attests attestable k) m in
      (
        in_mandatory,
        in_optional,
        mem_kind-from_keys k [] (mandatory ++ optional)
            ∙ mem_kind-append k mandatory optional
            ∙ ground arith,
      )

  -- The members of a validated plan, for a workflow with a policy. Whatever the agent proposed, the mandatory part is the
  -- workflow's mandatory evidence that the carrier can attest; the optional part is what the agent
  -- asked for and the carrier can attest; and the plan is the two together.
  pub validate_members :
      (plan : ValidatedEvidencePlan) (k : EvidenceKind)
      → validate attestable workflow_name proposed ≡ ok plan
      → (mem_kind k plan.mandatory ≡ (policy.mandatory k && attests attestable k))
        × (mem_kind k plan.optional
            ≡ (mem_kind k (proposed_kinds proposed) && attests attestable k))
        × (mem_kind k plan.combined ≡ (
            (policy.mandatory k || mem_kind k (proposed_kinds proposed)) && attests attestable k))
  unfolding validate validate_for
  validate_members plan k h =
      let (accepted, e, same) = validate_inv plan h in
      rw same (
        unfold enforced_plan in
        enforced_members accepted k
          (mem_kind-accept_optional policy k [] (proposed_kinds proposed) accepted e))

  -- No check is collected twice: for a workflow with a policy, no kind stands twice among the optional kinds of a validated plan,
  -- nor in the whole plan.
  pub validate-Distinct :
      (plan : ValidatedEvidencePlan)
      → validate attestable workflow_name proposed ≡ ok plan
      → Distinct plan.optional × Distinct plan.combined
  unfolding validate validate_for
  validate-Distinct plan h =
      let (accepted, e, same) = validate_inv plan h in
      rw same (
        Distinct-attested_list attestable accepted
            (Distinct-accept_optional policy [] (proposed_kinds proposed) accepted tt e),
        Distinct-from_keys []
            (sorted_kinds (attested_set attestable policy.mandatory)
              ++ attested_list attestable accepted)
            tt,
      )
