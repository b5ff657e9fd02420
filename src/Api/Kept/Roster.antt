-- ===== src/Api/Kept/Roster.antt =====
-- Who can change the roster, the passwords and the thresholds through src/zonegate/api.
use zonegate_backend.Runtime.{Tables, writing, pure, Exception, World, Exec, ◌>>=◌, raise}
use zonegate_backend.Api.Thresholds.{update_config}
use zonegate_backend.Api.Actors.{enroll_actor, update_permissions}
use zonegate_backend.Runtime.Keeping.{Keeps, Keeps-writing}
use zonegate_backend.Authorization.Service.Kept.{Allows}
use zonegate_backend.Storage.{
  save_transaction, save_evidence, save_evidence_plan, save_decision, save_receipt, save_token,
  save_context_evaluation, with_decision, with_receipt, with_token, save_console_session,
  delete_console_session,
}
use zonegate_backend.Prelude.{
  ◌≡◌, refl, ◌∙◌, Option, Table, String, List, some, ◌≢◌, Result, ok, err, none, ap, inl, inr,
}
use zonegate_backend.Authorization.Console.{resolve}
use zonegate_backend.Domain.{Actor, DeviceBinding, OperatorCredential}
use zonegate_backend.Api.Kept.{AllowsSessions, Keeps-resolve}
use zonegate_backend.Api.Guards.{or_raise, require_console_actor}
use zonegate_backend.Authorization.Console.Sessions.{StandsFor, resolve_session_current}
use zonegate_backend.Domain.PolicyConfig.{PolicyConfig}
use zonegate_backend.Runtime.Triples.{bind_assoc, raised_runs}
use zonegate_backend.Api.Requests.{Service, discard, ConsoleRequest, serve_console, serve, Request}
use zonegate_backend.Api.Authorizations.{resolve_endpoint}
use zonegate_backend.Api.Actors.{enroll_actor, update_permissions}
use zonegate_backend.Api.Auth.{change_password}
use zonegate_backend.Api.Kept.Serving.{request_cases, Keeps-open}
use zonegate_backend.Runtime.Binding.{bind_raises}

-- What the console keeps of people, and the stored thresholds.
pub record Roster : Type 0 where
  pub actors : Table Actor
  pub actor_ids : List String
  pub bindings : Table DeviceBinding
  pub credentials : Table OperatorCredential
  pub policy_config : Option PolicyConfig

abbrev pub roster_of : Tables → Roster
roster_of t = record {
  actors = t.actors;
  actor_ids = t.actor_ids;
  bindings = t.bindings;
  credentials = t.credentials;
  policy_config = t.policy_config;
}

abbrev SameRoster : Roster → Tables → Type 0
SameRoster before t = roster_of t ≡ before

Keeps-elsewhere :
    {before : Roster} (write : Tables → Tables)
    → ((t : Tables) → roster_of (write t) ≡ roster_of t)
    → Keeps (SameRoster before) (writing write)
Keeps-elsewhere write same = Keeps-writing write λ t p. same t ∙ p

SameRoster-Allows : (before : Roster) → Allows (SameRoster before)
unfolding save_transaction save_evidence_plan save_evidence save_context_evaluation save_decision
    save_receipt save_token with_decision with_receipt with_token
SameRoster-Allows before = record {
  transaction = λ tx. Keeps-elsewhere _ (λ t. refl);
  evidence_plan = λ id plan. Keeps-elsewhere _ (λ t. refl);
  evidence = λ id evidence. Keeps-elsewhere _ (λ t. refl);
  evaluation = λ id e. Keeps-elsewhere _ (λ t. refl);
  decision = λ d. Keeps-elsewhere _ (λ t. refl);
  receipt = λ r. Keeps-elsewhere _ (λ t. refl);
  token = λ x. Keeps-elsewhere _ (λ t. refl);
}

SameRoster-AllowsSessions : (before : Roster) → AllowsSessions (SameRoster before)
unfolding save_console_session delete_console_session
SameRoster-AllowsSessions before = record {
  session = λ s. Keeps-elsewhere _ (λ t. refl);
  ended = λ id. Keeps-elsewhere _ (λ t. refl);
}

-- The request's cookie stands for nobody: no session of that id is on record that is current and of
-- an enrolled actor outside the field roles.
abbrev pub IsUnsigned : Option String → World → Type 0
IsUnsigned cookie w = (id : String) (actor : Actor) → cookie ≡ some id → ¬ StandsFor w id actor

nobody :
    (cookie : Option String) (w : World) (actor : Actor)
    → IsUnsigned cookie w
    → (resolve cookie w).0 ≢ ok (some actor)
unfolding resolve pure
nobody none w actor unsigned h = cc
nobody (some id) w actor unsigned h = unsigned id actor refl (resolve_session_current id w actor h)

-- A resolution of the cookie, and what is done for the actor that it gives.
module _ {A : Type 0} (cookie : Option String) (e : Exception) (f : Actor → Exec A) where
  unsigned_step :
      (found : Option Actor) (w : World)
      → ((actor : Actor) → found ≢ some actor)
      → ((or_raise e found >>= f) w) ≡ (err e, w)
  unfolding or_raise raise pure ◌>>=◌
  unsigned_step none w h = refl
  unsigned_step (some actor) w h = absurd (h actor refl)

  -- Nobody is signed in: an exception, and only what `resolve` itself has changed.
  unsigned_raises :
      (w : World)
      → IsUnsigned cookie w
      → (x : Exception) × ((resolve cookie >>= λ found. or_raise e found >>= f) w
          ≡ (err x, (resolve cookie w).1))
  unsigned_raises w unsigned =
      bind_raises (resolve cookie) (λ found. or_raise e found >>= f) w
        λ found returned. (
          e,
          unsigned_step found (resolve cookie w).1
              (λ actor same. nobody cookie w actor unsigned (returned ∙ ap ok same)),
        )

  guarded_raises :
      (w : World)
      → IsUnsigned cookie w
      → (x : Exception) × (((resolve cookie >>= or_raise e) >>= f) w
          ≡ (err x, (resolve cookie w).1))
  guarded_raises w unsigned =
      let (x, q) = unsigned_raises w unsigned in
      (x, bind_assoc (resolve cookie) (or_raise e) f w ∙ q)

module _ (s : Service) (cookie : Option String) (w : World) (unsigned : IsUnsigned cookie w) where
  discarded_raises :
      {A : Type 0} (m : Exec A)
      → ((x : Exception) × (m w ≡ (err x, (resolve cookie w).1)))
      → (x : Exception) × (discard m w ≡ (err x, (resolve cookie w).1))
  discarded_raises m (x, q) = (x, raised_runs m (λ a. pure tt) w (resolve cookie w).1 x q)

  -- Whatever a request for the signed-in asks, an unsigned one raises before it does anything.
  pub console_raises :
      (request : ConsoleRequest)
      → (x : Exception) × (serve_console s cookie request w ≡ (err x, (resolve cookie w).1))
  unfolding serve_console require_console_actor resolve_endpoint enroll_actor update_permissions
      update_config change_password
  console_raises (ConsoleRequest.post_resolve id request) =
      discarded_raises _ (guarded_raises cookie _ _ w unsigned)
  console_raises (ConsoleRequest.post_actor request) =
      discarded_raises _ (guarded_raises cookie _ _ w unsigned)
  console_raises (ConsoleRequest.put_permissions id request) =
      discarded_raises _ (guarded_raises cookie _ _ w unsigned)
  console_raises (ConsoleRequest.put_config config) =
      discarded_raises _ (guarded_raises cookie _ _ w unsigned)
  console_raises (ConsoleRequest.post_password password) = unsigned_raises cookie _ _ w unsigned

  Keeps-unsigned :
      (request : ConsoleRequest)
      → roster_of (serve_console s cookie request w).1.tables ≡ roster_of w.tables
  Keeps-unsigned request =
      let (x, q) = console_raises request in
      ap (λ (r : Result Exception (Unit {0}) × World). roster_of r.1.tables) q
      ∙ (Keeps-resolve (SameRoster-AllowsSessions (roster_of w.tables)) cookie).at w refl

  -- If the cookie of a request stands for nobody, then, whatever the request and however it ends,
  -- the actors and their order, the device bindings, the console credentials and the stored
  -- thresholds are as they were.
  pub unsigned_roster :
      (request : Request) → roster_of (serve s cookie request w).1.tables ≡ roster_of w.tables
  unfolding serve
  unsigned_roster request = elim (request_cases request) [
    | inl open_request ↦
        (Keeps-open (SameRoster-Allows (roster_of w.tables))
            (SameRoster-AllowsSessions (roster_of w.tables)) s cookie request open_request).at
          w refl
    | inr (c, same) ↦ rw same (Keeps-unsigned c)
  ]
