-- ===== src/App/Restart.antt =====
-- The seeding of app.py as a whole, and once more after a restart.
use zonegate_backend.Runtime.{World}
use zonegate_backend.Authorization.Console.{ConsoleAuth}
use zonegate_backend.Prelude.{
  String, List, ◌==◌, ◌≡◌, false, Bool-cases, ok, inl, inr, ℕ, [], ◌∷◌, suc, refl, Option,
}
use zonegate_backend.App.Seeded.{
  Grows, Anything, HasActor, IsGrown, Grows-pure, Grows-weaken, Grows-then,
}
use zonegate_backend.Runtime.Idle.{IsIdle, IsIdle-pure, IsIdle-then, IsIdle-reading, IsIdle-weaken}
use zonegate_backend.Storage.{get_actor, get_credential}
use zonegate_backend.App.Start.{Grows-seed_authorities, Grows-seed_operator}
use zonegate_backend.App.{Settings}
use zonegate_backend.App.Seeding.{
  seed_operator, seed, seed_authorities, seed_console, demo_authorities, demo_actor,
  ensure_authority, save_demo_actor, ensure_password, save_authority, save_password,
}
use zonegate_backend.App.Complete.{
  IsComplete, AllStaffed, StillEnrolled, still-IsComplete, IsComplete-Allows,
  IsComplete-AllowsSessions, IsComplete-AllowsRoster,
}
use zonegate_backend.Api.Requests.{Service, Request}
use zonegate_backend.Api.Histories.{serve_all, kept_by_all}

Grows-seed_console :
    (auth : ConsoleAuth) (password : String)
    → Grows Anything
        (seed_console auth password)
        (λ t. (password == "") ≡ false → AllStaffed t demo_authorities)
unfolding seed_console
Grows-seed_console auth password = elim (Bool-cases (password == "")) [
  | inl blank ↦ rw blank (Grows-pure λ t p e. absurd (cc e))
  | inr given ↦
      rw given (Grows-weaken (λ t h e. h) (Grows-seed_authorities auth password 2 demo_authorities))
]

Grows-seed : (cfg : Settings) (auth : ConsoleAuth) → Grows Anything (seed cfg auth) (IsComplete cfg)
unfolding seed
Grows-seed cfg auth = elim (Bool-cases (cfg.app_env == "test")) [
  | inl test ↦
      rw (seed, test)
        (Grows-pure λ t p. record {
          operator = λ e. absurd (cc (test, e));
          console = λ e. absurd (cc (test, e));
        })
  | inr real ↦
      rw (seed, real)
        (Grows-weaken
          (λ t (actor, console). record { operator = λ e. actor; console = λ e. console })
          (Grows-then seed_operator (seed_console auth cfg.demo_operator_password)
            (λ t u g (a, h). (a, g.actors demo_actor.actor_id a h)) Grows-seed_operator
            (Grows-seed_console auth cfg.demo_operator_password)))
]

module _ (auth : ConsoleAuth) (password : String) where
  IsIdle-seed_authorities :
      (index : ℕ) (authorities : List (String × String))
      → IsIdle (λ t. AllStaffed t authorities) (seed_authorities auth password index authorities)
  unfolding seed_authorities ensure_authority ensure_password save_authority save_password get_actor
      get_credential
  IsIdle-seed_authorities index [] = IsIdle-pure
  IsIdle-seed_authorities index ((id, role) ∷ rest) =
      IsIdle-then _ _
        (IsIdle-reading _ _ (λ t ((actor, credential), others). actor) λ a. IsIdle-pure)
        (IsIdle-then _ _
          (IsIdle-reading _ _ (λ t ((actor, credential), others). credential) λ c. IsIdle-pure)
          (IsIdle-weaken (λ t (found, others). others) (IsIdle-seed_authorities (suc index) rest)))

IsIdle-seed_operator : IsIdle (λ t. HasActor t demo_actor.actor_id) seed_operator
unfolding seed_operator save_demo_actor get_actor
IsIdle-seed_operator = IsIdle-reading _ _ (λ t h. h) λ a. IsIdle-pure

IsIdle-seed_console :
    (auth : ConsoleAuth) (password : String)
    → IsIdle
        (λ t. (password == "") ≡ false → AllStaffed t demo_authorities)
        (seed_console auth password)
unfolding seed_console
IsIdle-seed_console auth password = elim (Bool-cases (password == "")) [
  | inl blank ↦ rw (seed_console, blank) IsIdle-pure
  | inr given ↦
      rw (seed_console, given)
        (IsIdle-weaken (λ t h. h refl) (IsIdle-seed_authorities auth password 2 demo_authorities))
]

IsIdle-seed : (cfg : Settings) (auth : ConsoleAuth) → IsIdle (IsComplete cfg) (seed cfg auth)
unfolding seed
IsIdle-seed cfg auth = elim (Bool-cases (cfg.app_env == "test")) [
  | inl test ↦ rw (seed, test) IsIdle-pure
  | inr real ↦
      rw (seed, real)
        (IsIdle-then _ _ (IsIdle-weaken (λ t c. c.operator real) IsIdle-seed_operator) (
          IsIdle-weaken (λ t c. c.console real)
            (IsIdle-seed_console auth cfg.demo_operator_password)))
]

-- If the seeding of a start returns, no actor or credential that was on record is changed, and the
-- sessions, decisions, receipts and tokens are as they were; outside a test the demo operator is
-- enrolled and, if a password is set, each demo authority is enrolled with a credential. The seeding
-- of a later start with these settings leaves the tables as they are, however it ends, wherever those
-- who were enrolled or had a credential still are or have one, whatever else has changed; and so it
-- does after any sequence of requests to the API, which never remove them.
pub seed_result :
    (cfg : Settings) (auth : ConsoleAuth) (w : World)
    → (seed cfg auth w).0 ≡ ok tt
    → IsGrown w.tables (seed cfg auth w).1.tables
      × IsComplete cfg (seed cfg auth w).1.tables
      × ((again : ConsoleAuth) (later : World)
          → StillEnrolled (seed cfg auth w).1.tables later.tables
          → (seed cfg again later).1.tables ≡ later.tables)
      × ((again : ConsoleAuth) (s : Service) (requests : List (Option String × Request))
          → (seed cfg again (serve_all s requests (seed cfg auth w).1)).1.tables
            ≡ (serve_all s requests (seed cfg auth w).1).tables)
seed_result cfg auth w h =
    let (grown, complete) = (Grows-seed cfg auth).at w tt tt h in
    (
      grown,
      complete,
      λ again later kept.
          (IsIdle-seed cfg again).at later (still-IsComplete cfg _ later.tables kept complete),
      λ again s requests. (IsIdle-seed cfg again).at _ (
          kept_by_all (IsComplete-Allows cfg) (IsComplete-AllowsSessions cfg)
            (IsComplete-AllowsRoster cfg) s requests (seed cfg auth w).1 complete),
    )
