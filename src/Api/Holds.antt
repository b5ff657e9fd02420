-- ===== src/Api/Holds.antt =====
-- The resolution of a hold through api/authorization.py.
use mathlib.Core.Path.{subst}
use zonegate_backend.Runtime.{
  World, raise, Exception, Tables, decision_not_found, catch, hold_authority_error,
  hold_resolution_error,
}
use zonegate_backend.Authorization.Service.{resolve_hold}
use zonegate_backend.Api.Authorizations.{HoldResolutionRequest, resolve_endpoint, hold_to_http}
use zonegate_backend.Prelude.{
  String, Option, some, ◌≡◌, ◌≢◌, ok, none, ◌⊎◌, true, inl, inr, ap, Result, sym, ◌∙◌,
}
use zonegate_backend.Authorization.Service.Deployment.{Deployment, Outcome}
use zonegate_backend.Domain.{Actor}
use zonegate_backend.Api.Signed.{IsSigned, required_caller}
use zonegate_backend.Authorization.Roles.{holds_authority}
use zonegate_backend.Authorization.Service.Holds.{IsResolved}
use zonegate_backend.Runtime.Binding.{catch_returns}
use zonegate_backend.Authorization.Service.Holds.Once.{resolve_result}

hold_to_http_raises :
    (e : Exception) (later : World) (out : Outcome) → (hold_to_http e later).0 ≢ ok out
unfolding hold_to_http raise
hold_to_http_raises (decision_not_found detail) later out h = cc
hold_to_http_raises (hold_authority_error detail) later out h = cc
hold_to_http_raises (hold_resolution_error detail) later out h = cc
hold_to_http_raises e later out h = cc

-- A hold was settled by somebody who was signed in.
pub record IsSettled (s : Deployment) (cookie : Option String) (id : String)
    (request : HoldResolutionRequest) (w : World) (out : Outcome) (t : Tables) : Type 0 where
  pub resolver : Actor
  pub signed : IsSigned cookie w resolver
  pub settled :
      IsResolved s id request.outcome resolver.actor_id request.note
        (some resolver.role)
        w.tables
        out
        t
  pub holds : holds_authority (some resolver.role) settled.d.required_authority ≡ true

authority_held :
    (role : String) (required : Option String)
    → (some role ≡ none) ⊎ (holds_authority (some role) required ≡ true)
    → holds_authority (some role) required ≡ true
authority_held role required (inl h) = absurd (cc h)
authority_held role required (inr h) = h

-- If the endpoint returns, its cookie names a session on record, not expired, of an enrolled actor
-- outside the field roles whose role holds the authority that the hold is for; the hold was open,
-- and it is settled under that actor's id, whatever name the body of the request carries.
pub resolve_endpoint_result :
    (s : Deployment) (cookie : Option String) (id : String) (request : HoldResolutionRequest)
    (w : World) (out : Outcome)
    → (resolve_endpoint s cookie id request w).0 ≡ ok out
    → IsSettled s cookie id request w out (resolve_endpoint s cookie id request w).1.tables
unfolding resolve_endpoint
resolve_endpoint_result s cookie id request w out h =
    let act = λ (resolver : Actor).
      catch (resolve_hold s id request.outcome resolver.actor_id request.note (some resolver.role))
        hold_to_http in
    let caller = required_caller cookie act w out h in
    let resolver = caller.actor in
    let inner =
      resolve_hold s id request.outcome resolver.actor_id request.note (some resolver.role) in
    let (returned, same) =
      catch_returns inner hold_to_http caller.later out (λ e later. hold_to_http_raises e later out)
        caller.returned in
    let settled =
      resolve_result s id request.outcome resolver.actor_id request.note (some resolver.role)
        caller.later out returned in
    let ended : (inner caller.later).1.tables ≡ (resolve_endpoint s cookie id request w).1.tables =
      ap (λ (x : Result Exception Outcome × World). x.1.tables) (sym same) ∙ caller.ended in
    let here =
      subst
        (λ b.
          IsResolved s id request.outcome resolver.actor_id request.note (some resolver.role) b out
            (resolve_endpoint s cookie id request w).1.tables)
        caller.same_tables
        (subst
          (IsResolved s id request.outcome resolver.actor_id request.note (some resolver.role)
            caller.later.tables out)
          ended settled) in
    record {
      resolver = resolver;
      signed = caller.signed;
      settled = here;
      holds = authority_held _ _ here.resolvable.authorized;
    }
