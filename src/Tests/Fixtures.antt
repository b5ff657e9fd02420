-- ===== src/Tests/Fixtures.antt =====
-- A deployment, an actor with a bound device, a request, and the tables that hold them.
use zonegate_backend.Prelude.{
  Table, true, none, update, ◌∷◌, [], some, ◌+◌, false, ok, Option, Bool,
}
use zonegate_backend.Authorization.Token.{Formats}
use zonegate_backend.Evidence.Gateway.{
  Carrier, answered, default_zone_registry, LocationVerdict, declined,
}
use zonegate_backend.Agent.{EvidencePlanner}
use zonegate_backend.Runtime.{Tables, World}
use zonegate_backend.Domain.{
  TransactionRequest, DeviceBinding, Actor, ContextEvaluation, ValidatedEvidencePlan, EvidencePlan,
  RecommendedControl, sim_swap, CanonicalEvidence,
}
use zonegate_backend.Authorization.Service.Deployment.{Deployment}
use zonegate_backend.Prelude.Text.{◌<>◌, decimal}
use zonegate_backend.Domain.PolicyConfig.{default_config}
use zonegate_backend.Evidence.PlanValidator.{enforced_plan}
use zonegate_backend.Evidence.WorkflowPolicy.{release_cargo}

abbrev pub alice : Actor
alice = record {
  actor_id = "alice";
  role = "CARGO_OPERATOR";
  permissions = "cargo:release" ∷ [];
  registered_phone_number = "+15550001";
  registered_device_id = "dev_1";
  enrollment_status = "ACTIVE";
}

abbrev pub alice_device : DeviceBinding
alice_device = record {
  actor_id = "alice";
  phone_number = "+15550001";
  device_id = "dev_1";
  bound_at = 5;
  is_active = true;
}

abbrev pub release : TransactionRequest
release = record {
  transaction_id = "tx_1";
  actor_id = "alice";
  action = "RELEASE_CARGO";
  resource_id = "CONTAINER_7";
  zone = "PORT_GATE_17";
  timestamp = 10;
  amount = "1200";
  category = "GENERAL";
  metadata = [];
}

-- A carrier that confirms the number and the location and reports no SIM or device swap.
abbrev pub confirming : Carrier
confirming = record {
  verify_number = λ phone. answered true;
  verify_location = λ phone fence. answered LocationVerdict.inside;
  check_sim_swap = λ phone. answered false;
  check_device_swap = λ phone. answered false;
  get_reachability = λ phone. declined;
}

abbrev pub formats : Formats
formats = record { sign = λ p. "sig_" <> p.token_id; isoformat = λ time. decimal time }

-- A planner that asks for the SIM swap check.
abbrev pub careful_planner : EvidencePlanner
careful_planner = record {
  generate =
      λ tx workflow offered. ok (record { optional_evidence = sim_swap ∷ []; rationale = [] });
}

abbrev pub port : Deployment
port = record {
  attestable = none;
  registry = default_zone_registry;
  carrier = confirming;
  formats = formats;
  planner = some careful_planner;
  evaluator = none;
  planning_fault = none;
  evaluation_fault = none;
}

abbrev pub no_table : {A : Type 0} → Table A
no_table k = none

abbrev pub enrolled : Tables
enrolled = record {
  actors = update no_table "alice" alice;
  actor_ids = "alice" ∷ [];
  bindings = update no_table "alice" alice_device;
  credentials = no_table;
  sessions = no_table;
  policy_config = none;
  transactions = no_table;
  plans = no_table;
  evidence = no_table;
  evaluations = no_table;
  decisions = no_table;
  decision_tx_index = no_table;
  decision_ids = [];
  receipts = no_table;
  receipt_tx_index = no_table;
  tokens = no_table;
  token_sig_index = no_table;
}

abbrev pub world_of : Tables → World
world_of t = record {
  tables = t;
  faults = [];
  config = default_config;
  clock = λ n. 1000 + n;
  ticks = 0;
  fresh = λ n. decimal n;
  draws = 0;
  events = [];
}

abbrev pub asked_plan : Option EvidencePlan
asked_plan = some (record { optional_evidence = sim_swap ∷ []; rationale = [] })

-- The plan that the validator makes of it.
abbrev pub release_plan : ValidatedEvidencePlan
release_plan = enforced_plan none release_cargo asked_plan (sim_swap ∷ [])

abbrev pub evidence_with : Option Bool → CanonicalEvidence
evidence_with swapped = record {
  number_verified = some true;
  location_verified = some true;
  recent_sim_swap = swapped;
  recent_device_swap = none;
  reachable = none;
  kyc_matched = none;
  collected_at = 20;
}

abbrev pub advice : ContextEvaluation
advice = record {
  risk_factors = "NIGHT" ∷ [];
  recommended_control = RecommendedControl.deny;
  rationale = "odd hours";
}
