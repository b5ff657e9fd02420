-- ===== src/Authorization/Service/Earned.antt =====
-- What has to be true of the actor, the device and the carrier before authorization/service.py lets
-- a release through or holds it for a person, and that the engine's verdict rests on it.
use zonegate_backend.Evidence.Gateway.Collecting.{Holds}
use zonegate_backend.Prelude.{
  Bool, Option, ◌≡◌, contains, true, some, ℕ, ◌≢◌, none, false, ok, arith, refl, String, ◌∙◌,
}
use zonegate_backend.Authorization.Service.Deployment.{Deployment}
use zonegate_backend.Domain.{
  DeviceBinding, TransactionRequest, EvidenceKind, Actor, EvidencePlan, ValidatedEvidencePlan,
  CanonicalEvidence, number_verification, location_verification, mem_kind, ContextEvaluation,
  DecisionOutcome, KindSet, sim_swap, device_swap, reachability, kyc_match,
}
use zonegate_backend.Evidence.Gateway.{
  Answer, LocationVerdict, answered, Geofence, is_inside, resolve_zone, collect_evidence, failed,
  declined,
}
use zonegate_backend.Policy.{required_permission, evaluate, mandatory_kinds}
use zonegate_backend.Evidence.WorkflowPolicy.{get_workflow_policy, release_cargo}
use zonegate_backend.Evidence.PlanValidator.{validate}
use zonegate_backend.Domain.PolicyConfig.{PolicyConfig}
use zonegate_backend.Policy.Rules.{AllAnswered, clear_of_not_denied}
use zonegate_backend.Evidence.Gateway.Checks.{IsBound, records_answers, collected-IsBound}
use zonegate_backend.Evidence.PlanValidator.Accepting.{attests}
use zonegate_backend.Evidence.PlanValidator.Plans.{validate_members}

-- The carrier itself confirmed the check. (Only the two mandatory kinds are ever asked for here.)
abbrev pub Confirms : Deployment → DeviceBinding → TransactionRequest → EvidenceKind → Type 0
Confirms s binding tx number_verification =
    s.carrier.verify_number binding.phone_number ≡ answered true
Confirms s binding tx location_verification =
    (fence : Geofence) × (resolve_zone s.registry tx.zone ≡ some fence)
    × (s.carrier.verify_location binding.phone_number fence ≡ answered LocationVerdict.inside)
Confirms s binding tx _ = Unit

pub record IsEarned (s : Deployment) (tx : TransactionRequest) (actor : Actor)
    (binding : DeviceBinding) : Type 0 where
  pub bound : IsBound actor binding
  pub permitted : contains (required_permission tx.action) actor.permissions ≡ true
  pub known : get_workflow_policy tx.action ≡ some release_cargo
  pub confirmed :
      (k : EvidenceKind)
      → release_cargo.mandatory k ≡ true
      → attests s.attestable k ≡ true
      → Confirms s binding tx k

-- A planned check whose field holds `some true` was answered so.
Holds-true :
    (planned : Bool) (answer : Answer Bool) (field : Option Bool)
    → Holds planned answer (λ b. some b) field
    → field ≢ none
    → field ≢ some false
    → answer ≡ answered true
Holds-true false answer field h some_answer not_false = absurd (some_answer h)
Holds-true true (answered true) field h some_answer not_false = refl
Holds-true true (answered false) field h some_answer not_false = absurd (not_false h)
Holds-true true declined field h some_answer not_false = absurd (some_answer h)
Holds-true true (failed text) field h some_answer not_false = absurd h

Holds-inside :
    (planned : Bool) (answer : Answer LocationVerdict) (field : Option Bool)
    → Holds planned answer (λ v. some (is_inside v)) field
    → field ≢ none
    → field ≢ some false
    → answer ≡ answered LocationVerdict.inside
Holds-inside false answer field h some_answer not_false = absurd (some_answer h)
Holds-inside true (answered LocationVerdict.inside) field h some_answer not_false = refl
Holds-inside true (answered LocationVerdict.outside) field h some_answer not_false =
    absurd (not_false h)
Holds-inside true (answered LocationVerdict.partial) field h some_answer not_false =
    absurd (not_false h)
Holds-inside true (answered LocationVerdict.unknown) field h some_answer not_false =
    absurd (not_false h)
Holds-inside true declined field h some_answer not_false = absurd (some_answer h)
Holds-inside true (failed text) field h some_answer not_false = absurd h

module _ (s : Deployment) (tx : TransactionRequest) (actor : Actor) (binding : DeviceBinding)
    (proposed : Option EvidencePlan) (plan : ValidatedEvidencePlan) (evidence : CanonicalEvidence)
    (collected_at : ℕ) (valid : validate s.attestable tx.action proposed ≡ ok plan)
    (collected : (collect_evidence s.registry s.carrier collected_at actor binding tx plan).1
      ≡ ok evidence) where
  known : get_workflow_policy tx.action ≡ some release_cargo
  unfolding validate get_workflow_policy
  known = ground (arith, valid)

  in_mandatory :
      (k : EvidenceKind)
      → release_cargo.mandatory k ≡ true
      → attests s.attestable k ≡ true
      → mem_kind k plan.mandatory ≡ true
  in_mandatory k m a =
      (validate_members s.attestable tx.action release_cargo proposed known plan k valid).0
      ∙ ground (arith, m, a)

  confirmations :
      (fence : Geofence)
      → resolve_zone s.registry tx.zone ≡ some fence
      → Holds
          (mem_kind number_verification plan.combined)
          (s.carrier.verify_number binding.phone_number)
          (λ b. some b)
          evidence.number_verified
      → Holds
          (mem_kind location_verification plan.combined)
          (s.carrier.verify_location binding.phone_number fence)
          (λ v. some (is_inside v))
          evidence.location_verified
      → AllAnswered evidence (λ k. mem_kind k plan.mandatory)
      → evidence.number_verified ≢ some false
      → evidence.location_verified ≢ some false
      → (k : EvidenceKind) → release_cargo.mandatory k ≡ true
      → attests s.attestable k ≡ true
      → Confirms s binding tx k
  confirmations fence zone number location all not_number not_location number_verification m a =
      Holds-true _ _ evidence.number_verified number
        (all number_verification (in_mandatory number_verification m a)) not_number
  confirmations fence zone number location all not_number not_location location_verification m a = (
    fence,
    zone,
    Holds-inside _ _ evidence.location_verified location
        (all location_verification (in_mandatory location_verification m a)) not_location,
  )
  confirmations fence zone number location all not_number not_location sim_swap m a = tt
  confirmations fence zone number location all not_number not_location device_swap m a = tt
  confirmations fence zone number location all not_number not_location reachability m a = tt
  confirmations fence zone number location all not_number not_location kyc_match m a = tt

  -- The engine's verdict on this plan and evidence, when it is no denial, rests on the carrier.
  pub verdict-IsEarned :
      (config : PolicyConfig) (id : String) (time : ℕ) (context : Option ContextEvaluation)
      → (evaluate config id time tx actor evidence context s.attestable
          (some (λ k. mem_kind k plan.mandatory))).decision
        ≢ DecisionOutcome.deny
      → IsEarned s tx actor binding
  unfolding mandatory_kinds
  verdict-IsEarned config id time context h =
      let required : KindSet = λ k. mem_kind k plan.mandatory in
      let clear =
        clear_of_not_denied config id time tx actor evidence context s.attestable (some required)
          h in
      let (fence, zone, answers) =
        records_answers s.registry s.carrier collected_at actor binding tx plan evidence
          collected in
      record {
        bound =
            collected-IsBound s.registry s.carrier collected_at actor binding tx plan evidence
              collected;
        permitted = clear.permitted;
        known = known;
        confirmed =
            confirmations fence zone answers.1 answers.2 clear.answered clear.number clear.located;
      }
