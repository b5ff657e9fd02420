-- ===== src/Api/Thresholds.antt =====
-- api/policy.py: the thresholds of the policy engine.
use zonegate_backend.Runtime.{Exec, ◌>>◌, gets, configure, pure}
use zonegate_backend.Evidence.Gateway.{Geofence}
use zonegate_backend.Prelude.Sorting.{sorted, sorted_by}
use zonegate_backend.Prelude.{Option, String, List, is_some, Bool, map, ◌++◌, keep, not, contains}
use zonegate_backend.Domain.PolicyConfig.{PolicyConfig, cargo_categories, authority_for}
use zonegate_backend.Authorization.Service.Deployment.{Deployment}
use zonegate_backend.Api.Guards.{require_console_actor}
use zonegate_backend.Storage.{save_policy_config}

pub record CategoryOption : Type 0 where
  pub category : String
  pub restricted : Bool
  pub required_authority : Option String

unfoldable pub get_config : Exec PolicyConfig
get_config = gets (λ w. w.config)

unfoldable pub category_option : PolicyConfig → String → CategoryOption
category_option config name = record {
  category = name;
  restricted = is_some (authority_for config name);
  required_authority = authority_for config name;
}

-- The names of the built-in vocabulary, and behind them those that only the configuration has.
unfoldable pub category_names : PolicyConfig → List String
category_names config =
    cargo_categories
    ++ keep (λ name. not (contains name cargo_categories))
        (sorted (map (λ item. item.0) config.restricted_categories))

unfoldable pub list_categories : Exec (List CategoryOption)
unfolding category_option category_names
list_categories = gets (λ w. map (category_option w.config) (category_names w.config))

-- The items of the registry by their names; the names of a dict are distinct.
unfoldable pub list_zones : Deployment → List (String × Geofence)
list_zones s = sorted_by (λ item. item.0) s.registry

unfoldable pub update_config : Option String → PolicyConfig → Exec PolicyConfig
update_config cookie config = do
  require_console_actor cookie
  save_policy_config config
  configure config
  pure config
