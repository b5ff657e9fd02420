-- ===== src/Api/Kept/Serving.antt =====
-- What the requests of src/zonegate/api that anybody may send keep.
use zonegate_backend.Runtime.{
  Tables, Exception, weak_password, invalid_credentials, decision_not_found, hold_authority_error,
  console_access_denied, hold_resolution_error,
}
use zonegate_backend.Runtime.Keeping.{
  Keeps, Keeps-bind, Keeps-reading, Keeps-raise, Keeps-pure, Keeps-catch, Keeps-gets,
}
use zonegate_backend.Authorization.Service.Kept.{Allows}
use zonegate_backend.Authorization.Service.Kept.Requests.{Keeps-authorize}
use zonegate_backend.Authorization.Service.Kept.Closing.{Keeps-claim_token}
use zonegate_backend.Storage.{
  get_actor, get_token, list_actors, get_transaction, get_receipt, get_decision, list_decisions,
  get_device_binding, get_evidence, get_evidence_plan, get_receipt_by_transaction_id,
}
use zonegate_backend.Api.Actors.{with_bindings, list_roster, read_actor}
use zonegate_backend.Api.Auth.{login, read_session, logout, denied_to_http}
use zonegate_backend.Api.Authorizations.{
  stream_authorization, run_stream, request_authorization, context_of, contexts_of,
  list_authorizations, list_contexts, read_decision, read_context, hold_to_http, on_stage,
}
use zonegate_backend.Api.Thresholds.{get_config, list_categories}
use zonegate_backend.Api.Records.{read_receipt, show_token, claim}
use zonegate_backend.Api.Requests.{ConsoleRequest, Request, Service, serve}
use zonegate_backend.Prelude.{
  Option, List, String, ℕ, [], Bool, ◌∷◌, none, inl, inr, ◌⊎◌, ◌≡◌, refl,
}
use zonegate_backend.Api.Kept.{
  AllowsSessions, Keeps-discard, Keeps-or_raise, Keeps-sign_in, Keeps-resolve, Keeps-sign_out,
}
use zonegate_backend.Api.Guards.{weak_to_http}
use zonegate_backend.Domain.{Actor, DecisionOutcome, PolicyDecision}

abbrev pub IsOpen : Request → Type 0
IsOpen (Request.console request) = ⊥
IsOpen _ = Unit

-- An open request, or one of the console.
pub request_cases :
    (request : Request) → IsOpen request ⊎ ((c : ConsoleRequest) × (request ≡ Request.console c))
request_cases (Request.console c) = inr (c, refl)
request_cases request = inl tt

module _ {P : Tables → Type 0} where
  Keeps-with_bindings : (actors : List Actor) → Keeps P (with_bindings actors)
  unfolding with_bindings get_device_binding
  Keeps-with_bindings [] = Keeps-pure []
  Keeps-with_bindings (actor ∷ actors) =
      Keeps-bind (Keeps-reading _)
        λ binding. Keeps-bind (Keeps-with_bindings actors) λ rest. Keeps-pure _

  Keeps-list_roster : (limit : Option ℕ) → Keeps P (list_roster limit)
  unfolding list_roster list_actors
  Keeps-list_roster limit = Keeps-bind (Keeps-reading _) Keeps-with_bindings

  Keeps-read_actor : (id : String) → Keeps P (read_actor id)
  unfolding read_actor get_actor get_device_binding
  Keeps-read_actor id = Keeps-bind (Keeps-reading _) λ found.
      Keeps-bind (Keeps-or_raise _ found) λ actor.
        Keeps-bind (Keeps-reading _)
          λ bound. Keeps-bind (Keeps-or_raise _ bound) λ binding. Keeps-pure _

  Keeps-context_of : (d : PolicyDecision) → Keeps P (context_of d)
  unfolding context_of get_transaction get_evidence get_evidence_plan get_receipt_by_transaction_id
  Keeps-context_of d = Keeps-bind (Keeps-reading _) λ transaction.
      Keeps-bind (Keeps-reading _) λ evidence.
        Keeps-bind (Keeps-reading _) λ plan. Keeps-bind (Keeps-reading _) λ receipt. Keeps-pure _

  Keeps-contexts_of : (ds : List PolicyDecision) → Keeps P (contexts_of ds)
  unfolding contexts_of
  Keeps-contexts_of [] = Keeps-pure []
  Keeps-contexts_of (d ∷ ds) =
      Keeps-bind (Keeps-context_of d)
        λ context. Keeps-bind (Keeps-contexts_of ds) λ rest. Keeps-pure _

  Keeps-list_authorizations :
      (outcome : Option DecisionOutcome) (pending : Bool) (limit : Option ℕ)
      → Keeps P (list_authorizations outcome pending limit)
  unfolding list_authorizations list_decisions
  Keeps-list_authorizations outcome pending limit =
      Keeps-bind (Keeps-reading _) λ decisions. Keeps-pure _

  Keeps-list_contexts :
      (outcome : Option DecisionOutcome) (pending : Bool) (limit : Option ℕ)
      → Keeps P (list_contexts outcome pending limit)
  unfolding list_contexts list_decisions
  Keeps-list_contexts outcome pending limit =
      Keeps-bind (Keeps-reading _) λ decisions. Keeps-contexts_of _

  Keeps-read_decision : (id : String) → Keeps P (read_decision id)
  unfolding read_decision get_decision
  Keeps-read_decision id = Keeps-bind (Keeps-reading _) (Keeps-or_raise _)

  Keeps-read_context : (id : String) → Keeps P (read_context id)
  unfolding read_context get_decision
  Keeps-read_context id =
      Keeps-bind (Keeps-reading _) λ found. Keeps-bind (Keeps-or_raise _ found) Keeps-context_of

  Keeps-read_receipt : (id : String) → Keeps P (read_receipt id)
  unfolding read_receipt get_receipt
  Keeps-read_receipt id = Keeps-bind (Keeps-reading _) (Keeps-or_raise _)

  Keeps-show_token : (id : String) → Keeps P (show_token id)
  unfolding show_token get_token
  Keeps-show_token id = Keeps-bind (Keeps-reading _) (Keeps-or_raise _)

  pub Keeps-weak_to_http : (e : Exception) → Keeps P (weak_to_http e)
  unfolding weak_to_http
  Keeps-weak_to_http (weak_password detail) = Keeps-raise _
  Keeps-weak_to_http e = Keeps-raise _

  Keeps-denied_to_http : (e : Exception) → Keeps P (denied_to_http e)
  unfolding denied_to_http
  Keeps-denied_to_http (invalid_credentials detail) = Keeps-raise _
  Keeps-denied_to_http (console_access_denied detail) = Keeps-raise _
  Keeps-denied_to_http e = Keeps-raise _

  pub Keeps-hold_to_http : (e : Exception) → Keeps P (hold_to_http e)
  unfolding hold_to_http
  Keeps-hold_to_http (decision_not_found detail) = Keeps-raise _
  Keeps-hold_to_http (hold_authority_error detail) = Keeps-raise _
  Keeps-hold_to_http (hold_resolution_error detail) = Keeps-raise _
  Keeps-hold_to_http e = Keeps-raise _

module _ {P : Tables → Type 0} (allows : Allows P) (sessions : AllowsSessions P) (s : Service)
    (cookie : Option String) where
  -- What a request that anybody may send keeps.
  pub Keeps-open : (request : Request) → IsOpen request → Keeps P (serve s cookie request)
  unfolding serve request_authorization login read_session logout get_config list_categories claim
      stream_authorization run_stream
  Keeps-open (Request.console request) h = elim h [ ]
  Keeps-open (Request.post_stream tx) h = record {
    at = λ w p. (Keeps-authorize allows s.deployment on_stage tx).at (record w { events = [] }) p;
  }
  Keeps-open (Request.post_authorization tx) h =
      Keeps-discard (Keeps-authorize allows s.deployment none tx)
  Keeps-open (Request.get_authorizations outcome pending limit) h =
      Keeps-discard (Keeps-list_authorizations outcome pending limit)
  Keeps-open (Request.get_contexts outcome pending limit) h =
      Keeps-discard (Keeps-list_contexts outcome pending limit)
  Keeps-open (Request.get_authorization id) h = Keeps-discard (Keeps-read_decision id)
  Keeps-open (Request.get_authorization_context id) h = Keeps-discard (Keeps-read_context id)
  Keeps-open (Request.get_roster limit) h = Keeps-discard (Keeps-list_roster limit)
  Keeps-open (Request.get_actor_by_id id) h = Keeps-discard (Keeps-read_actor id)
  Keeps-open (Request.post_login request) h = Keeps-discard (
      Keeps-bind (Keeps-catch (Keeps-sign_in sessions s.auth _ _) Keeps-denied_to_http)
        λ opened. Keeps-pure _)
  Keeps-open Request.get_session h =
      Keeps-discard (Keeps-bind (Keeps-resolve sessions cookie) (Keeps-or_raise _))
  Keeps-open Request.post_logout h =
      Keeps-discard (Keeps-bind (Keeps-sign_out sessions cookie) λ _. Keeps-pure _)
  Keeps-open Request.get_thresholds h = Keeps-discard (Keeps-gets _)
  Keeps-open Request.get_categories h = Keeps-discard (Keeps-gets _)
  Keeps-open Request.get_zones h = Keeps-pure tt
  Keeps-open (Request.post_claim id expected) h =
      Keeps-discard
        (Keeps-bind (Keeps-claim_token allows s.deployment id expected) λ answer. Keeps-pure _)
  Keeps-open (Request.get_token_by_id id) h = Keeps-discard (Keeps-show_token id)
  Keeps-open (Request.get_receipt_by_id id) h = Keeps-discard (Keeps-read_receipt id)
  Keeps-open Request.get_health h = Keeps-pure tt
