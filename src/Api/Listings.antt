-- ===== src/Api/Listings.antt =====
-- What the listings of api/authorization.py return.
use zonegate_backend.Runtime.{Tables}
use zonegate_backend.Storage.{outcome_passes}
use zonegate_backend.Prelude.{Bool, Option, ◌≡◌, true, none}
use zonegate_backend.Domain.{DecisionOutcome, PolicyDecision}
use zonegate_backend.Storage.Listings.{IsListed}

-- A listed decision is one that was asked for.
pub record IsAnswer (t : Tables) (outcome : Option DecisionOutcome) (pending : Bool)
    (d : PolicyDecision) : Type 0 where
  pub on_record : IsListed t.decisions (outcome_passes outcome) t.decision_ids d
  pub awaiting : pending ≡ true → d.resolution ≡ none
