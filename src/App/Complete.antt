-- ===== src/App/Complete.antt =====
-- What the start of app.py looks for, and that no request of the API removes it.
use zonegate_backend.Runtime.Keeping.{Keeps, Keeps-writing}
use zonegate_backend.Runtime.{Tables, writing}
use zonegate_backend.App.{Settings}
use zonegate_backend.Prelude.{
  List, Table, ◌==◌, ◌≡◌, String, ◌∷◌, [], All, false, some, update, Bool-cases, inl, inr, refl,
}
use zonegate_backend.Storage.{
  save_actor, save_transaction, save_console_session, save_evidence_plan, delete_console_session,
  save_device_binding, save_credential, save_evidence, save_policy_config, save_context_evaluation,
  save_decision, save_receipt, save_token, with_decision, with_receipt, with_token,
}
use zonegate_backend.App.Seeding.{demo_actor, demo_authorities}
use zonegate_backend.App.Seeded.{HasActor, HasCredential}
use zonegate_backend.Api.Kept.{AllowsSessions, AllowsRoster}
use zonegate_backend.Authorization.Service.Kept.{Allows}

abbrev pub AllStaffed : Tables → List (String × String) → Type 0
AllStaffed t authorities = All (λ x. HasActor t x.0 × HasCredential t x.0) authorities

-- What a start looks for is on record.
pub record IsComplete (cfg : Settings) (t : Tables) : Type 0 where
  pub operator : (cfg.app_env == "test") ≡ false → HasActor t demo_actor.actor_id
  pub console :
      (cfg.app_env == "test") ≡ false
      → (cfg.demo_operator_password == "") ≡ false
      → AllStaffed t demo_authorities

-- Whoever was enrolled, or had a credential, still is or has one, changed or not.
pub record StillEnrolled (t u : Tables) : Type 0 where
  pub actors : (id : String) → HasActor t id → HasActor u id
  pub credentials : (id : String) → HasCredential t id → HasCredential u id

still_staffed :
    (authorities : List (String × String)) (t u : Tables)
    → StillEnrolled t u
    → AllStaffed t authorities
    → AllStaffed u authorities
still_staffed [] t u g h = tt
still_staffed ((id, role) ∷ rest) t u g ((actor, credential), others) =
    ((g.actors id actor, g.credentials id credential), still_staffed rest t u g others)

pub still-IsComplete :
    (cfg : Settings) (t u : Tables) → StillEnrolled t u → IsComplete cfg t → IsComplete cfg u
still-IsComplete cfg t u g c = record {
  operator = λ e. g.actors demo_actor.actor_id (c.operator e);
  console = λ e given. still_staffed demo_authorities t u g (c.console e given);
}

-- A table that is written at one key has a record wherever it had one.
still_found :
    {A : Type 0} (table : Table A) (key : String) (new : A) (id : String)
    → (a : A) × (table id ≡ some a)
    → (a : A) × (update table key new id ≡ some a)
still_found table key new id (a, h) = elim (Bool-cases (key == id)) [
  | inl same ↦ (new, rw same refl)
  | inr other ↦ (a, rw other h)
]

module _ (cfg : Settings) where
  Keeps-enrolled :
      (write : Tables → Tables)
      → ((t : Tables) → StillEnrolled t (write t))
      → Keeps (IsComplete cfg) (writing write)
  Keeps-enrolled write h = Keeps-writing write λ t c. still-IsComplete cfg t (write t) (h t) c

  -- A write of neither table.
  Keeps-elsewhere :
      (write : Tables → Tables)
      → ((t : Tables) → ((write t).actors ≡ t.actors) × ((write t).credentials ≡ t.credentials))
      → Keeps (IsComplete cfg) (writing write)
  Keeps-elsewhere write h = Keeps-enrolled write λ t.
      let (actors, credentials) = h t in
      record {
        actors = λ id (a, e). (a, rw actors e);
        credentials = λ id (c, e). (c, rw credentials e);
      }

  pub IsComplete-Allows : Allows (IsComplete cfg)
  unfolding save_transaction save_evidence_plan save_evidence save_context_evaluation save_decision
      save_receipt save_token with_decision with_receipt with_token
  IsComplete-Allows = record {
    transaction = λ tx. Keeps-elsewhere _ λ t. (refl, refl);
    evidence_plan = λ id plan. Keeps-elsewhere _ λ t. (refl, refl);
    evidence = λ id evidence. Keeps-elsewhere _ λ t. (refl, refl);
    evaluation = λ id e. Keeps-elsewhere _ λ t. (refl, refl);
    decision = λ d. Keeps-elsewhere _ λ t. (refl, refl);
    receipt = λ r. Keeps-elsewhere _ λ t. (refl, refl);
    token = λ x. Keeps-elsewhere _ λ t. (refl, refl);
  }

  pub IsComplete-AllowsSessions : AllowsSessions (IsComplete cfg)
  unfolding save_console_session delete_console_session
  IsComplete-AllowsSessions = record {
    session = λ s. Keeps-elsewhere _ λ t. (refl, refl);
    ended = λ id. Keeps-elsewhere _ λ t. (refl, refl);
  }

  pub IsComplete-AllowsRoster : AllowsRoster (IsComplete cfg)
  unfolding save_actor save_device_binding save_credential save_policy_config
  IsComplete-AllowsRoster = record {
    actor = λ a.
        Keeps-enrolled _
          λ t. record { actors = still_found t.actors a.actor_id a; credentials = λ id h. h };
    binding = λ b. Keeps-elsewhere _ λ t. (refl, refl);
    credential = λ c.
        Keeps-enrolled _
          λ t. record { actors = λ id h. h; credentials = still_found t.credentials c.actor_id c };
    config = λ c. Keeps-elsewhere _ λ t. (refl, refl);
  }
