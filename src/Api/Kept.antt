-- ===== src/Api/Kept.antt =====
-- What the requests of src/zonegate/api keep of the tables.
pub mod Serving
pub mod Console
pub mod Roster
use zonegate_backend.Runtime.{Tables, Exec, Exception}
use zonegate_backend.Authorization.Console.{
  resolve, sign_out, resolve_session, sign_in, resolve_found, open_session, ConsoleAuth,
  sign_in_refusal,
}
use zonegate_backend.Runtime.Keeping.{
  Keeps, Keeps-pure, Keeps-raise, Keeps-bind, Keeps-now, Keeps-if, Keeps-reading, Keeps-draw,
}
use zonegate_backend.Domain.{Actor, ConsoleSession, DeviceBinding, OperatorCredential}
use zonegate_backend.Api.Guards.{or_raise, require_console_actor}
use zonegate_backend.Storage.{
  get_console_session, get_actor, save_actor, save_console_session, delete_console_session,
  get_credential, save_device_binding, save_credential, save_policy_config,
}
use zonegate_backend.Prelude.{String, Option, Option-cases, some, inl, none, inr}
use zonegate_backend.Api.Requests.{discard}
use zonegate_backend.Policy.{truthy}
use zonegate_backend.Domain.PolicyConfig.{PolicyConfig}

-- The writes of the console besides those of the service.
pub record AllowsSessions (P : Tables → Type 0) : Type 0 where
  pub session : (s : ConsoleSession) → Keeps P (save_console_session s)
  pub ended : (id : String) → Keeps P (delete_console_session id)

pub record AllowsRoster (P : Tables → Type 0) : Type 0 where
  pub actor : (a : Actor) → Keeps P (save_actor a)
  pub binding : (b : DeviceBinding) → Keeps P (save_device_binding b)
  pub credential : (c : OperatorCredential) → Keeps P (save_credential c)
  pub config : (c : PolicyConfig) → Keeps P (save_policy_config c)

module _ {P : Tables → Type 0} where
  pub Keeps-or_raise : {A : Type 0} (e : Exception) (found : Option A) → Keeps P (or_raise e found)
  unfolding or_raise
  Keeps-or_raise e none = Keeps-raise e
  Keeps-or_raise e (some a) = Keeps-pure a

  pub Keeps-discard : {A : Type 0} {m : Exec A} → Keeps P m → Keeps P (discard m)
  Keeps-discard h = Keeps-bind h λ a. Keeps-pure tt

module _ {P : Tables → Type 0} (sessions : AllowsSessions P) where
  Keeps-resolve_session :
      (id : String) (session : ConsoleSession) → Keeps P (resolve_session id session)
  unfolding resolve_session get_actor
  Keeps-resolve_session id session = Keeps-bind Keeps-now λ time.
      Keeps-if _ (Keeps-bind (sessions.ended id) λ _. Keeps-pure none)
        (Keeps-bind (Keeps-reading _) λ found. Keeps-pure _)

  Keeps-resolve_found :
      (id : String) (found : Option ConsoleSession) → Keeps P (resolve_found id found)
  unfolding resolve_found
  Keeps-resolve_found id none = Keeps-pure none
  Keeps-resolve_found id (some session) = Keeps-resolve_session id session

  pub Keeps-resolve : (cookie : Option String) → Keeps P (resolve cookie)
  unfolding resolve get_console_session
  Keeps-resolve cookie = elim (Option-cases (truthy cookie)) [
    | inl e ↦ rw (resolve, e) (Keeps-pure none)
    | inr (id, e) ↦ rw (resolve, e) (Keeps-bind (Keeps-reading _) (Keeps-resolve_found id))
  ]

  pub Keeps-sign_out : (cookie : Option String) → Keeps P (sign_out cookie)
  unfolding sign_out
  Keeps-sign_out cookie = elim (Option-cases (truthy cookie)) [
    | inl e ↦ rw (sign_out, e) (Keeps-pure tt)
    | inr (id, e) ↦ rw (sign_out, e) (sessions.ended id)
  ]

  pub Keeps-require_console_actor :
      (cookie : Option String) → Keeps P (require_console_actor cookie)
  unfolding require_console_actor
  Keeps-require_console_actor cookie = Keeps-bind (Keeps-resolve cookie) (Keeps-or_raise _)

  pub Keeps-sign_in :
      (auth : ConsoleAuth) (actor_id password : String) → Keeps P (sign_in auth actor_id password)
  unfolding sign_in get_actor get_credential open_session
  Keeps-sign_in auth actor_id password = Keeps-bind (Keeps-reading _) λ found.
      Keeps-bind (Keeps-reading _) λ credential.
        elim (Option-cases (sign_in_refusal auth actor_id password found credential)) [
          | inr (e, refused) ↦ rw refused (Keeps-raise e)
          | inl passes ↦ rw passes (elim (Option-cases found) [
            | inl e ↦ rw e (Keeps-raise _)
            | inr (actor, e) ↦ rw e (
                Keeps-bind Keeps-now λ time.
                  Keeps-bind Keeps-draw λ id. Keeps-bind (sessions.session _) λ _. Keeps-pure _)
          ])
        ]
