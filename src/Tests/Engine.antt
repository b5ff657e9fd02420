-- ===== src/Tests/Engine.antt =====
-- policy/engine.py and domain/policy_config.py on concrete evidence.
use zonegate_backend.Domain.{
  KindSet, DecisionOutcome, mem_kind, PolicyDecision, number_verification,
}
use zonegate_backend.Domain.PolicyConfig.{
  authority_for, check_categories, PolicyConfig, first_refused, default_config, strip_items,
  put_item, accepted,
}
use zonegate_backend.Policy.{
  evaluate, sim_swap_authority, truthy, number_caveat, required_permission, supported_kinds,
}
use zonegate_backend.Prelude.{
  none, some, Option, ◌≢◌, not, true, ◌∷◌, Bool, ◌≡◌, [], refl, ◌↔◌, String,
}
use zonegate_backend.Policy.Rules.{verdict, IsClear, approve_iff, advisory_only, hold_iff, WaitsFor}
use zonegate_backend.Tests.Fixtures.{release, alice, evidence_with, advice}
use zonegate_backend.Prelude.Text.{strip}

abbrev decided : Option Bool → PolicyDecision
decided swapped =
    verdict default_config "dec_0" 20 release alice (evidence_with swapped) none none none

clean_test : (decided none).decision ≡ DecisionOutcome.approve
unfolding evaluate required_permission zonegate_backend.Policy.first_unanswered
    zonegate_backend.Domain.sorted_kinds zonegate_backend.Policy.mandatory_kinds
    zonegate_backend.Policy.is_unanswered authority_for
clean_test = refl

swap_test : (decided (some true)).required_authority ≡ some sim_swap_authority
unfolding evaluate required_permission zonegate_backend.Policy.first_unanswered
    zonegate_backend.Domain.sorted_kinds zonegate_backend.Policy.mandatory_kinds
    zonegate_backend.Policy.is_unanswered authority_for
swap_test = refl

approve_iff_example : ((decided none).decision ≡ DecisionOutcome.approve) ↔ (
    IsClear default_config "dec_0" 20 release alice (evidence_with none) none none none
    × (◌≢◌ {A = Option Bool} none (some true))
    × (truthy (authority_for default_config "GENERAL") ≡ none))
approve_iff_example =
    approve_iff default_config "dec_0" 20 release alice (evidence_with none) none none none

hold_iff_example :
    (((decided (some true)).decision ≡ DecisionOutcome.hold) ↔ (
      IsClear default_config "dec_0" 20 release alice (evidence_with (some true)) none none none
      × ((authority : String) × WaitsFor default_config "dec_0" 20 release alice
            (evidence_with (some true))
            none
            none
            none
            authority)))
    × ((authority : String)
        → (((decided (some true)).decision ≡ DecisionOutcome.hold)
            × ((decided (some true)).required_authority ≡ some authority))
          ↔ (IsClear default_config "dec_0" 20 release alice
                (evidence_with (some true))
                none
                none
                none
              × WaitsFor default_config "dec_0" 20 release alice
                  (evidence_with (some true))
                  none
                  none
                  none
                  authority))
hold_iff_example =
    hold_iff default_config "dec_0" 20 release alice (evidence_with (some true)) none none none

advisory_only_example :
    evaluate default_config "dec_0" 20 release alice (evidence_with none) (some advice) none none
    ≡ record (decided none) { context_evaluation = some advice }
advisory_only_example =
    advisory_only default_config "dec_0" 20 release alice (evidence_with none) none none none
      (some advice)

abbrev unattested : KindSet
unattested k = not (mem_kind k (number_verification ∷ []))

abbrev listed : PolicyConfig
listed = record { restricted_categories = ("PHARMA", "QA_LEAD") ∷ [] }

listed_test : check_categories (("PHARMA", "QA_LEAD") ∷ []) ≡ accepted listed
unfolding check_categories first_refused strip_items put_item strip
listed_test = refl

found_test : authority_for listed "PHARMA" ≡ some "QA_LEAD"
unfolding authority_for
found_test = refl
