-- ===== src/Authorization/Service/Histories.antt =====
-- Sequences of requests to authorization/service.py.
use mathlib.Core.Path.{subst}
use zonegate_backend.Authorization.Service.Resolution.{claim_token, resolve_hold}
use zonegate_backend.Authorization.Service.Deployment.{Deployment, Listener}
use zonegate_backend.Runtime.{World}
use zonegate_backend.Domain.{TransactionRequest, DecisionOutcome}
use zonegate_backend.Authorization.Service.Keyed.{IsKeyed, IsKeyed-Allows}
use zonegate_backend.Prelude.{String, Option, sym, ◌≡◌}
use zonegate_backend.Authorization.Token.{Expected}
use zonegate_backend.Authorization.Service.Pipeline.{authorize_transaction}
use zonegate_backend.Authorization.Service.Kept.Requests.{Keeps-authorize}
use zonegate_backend.Authorization.Service.Kept.Closing.{Keeps-resolve_hold, Keeps-claim_token}

-- One request, of any kind and with any outcome, or something that leaves the tables: time that
-- passes, a listener that changes, a policy configuration that is replaced.
pub data Step (s : Deployment) : World → World → Type 0 where
  authorizes :
      (tx : TransactionRequest) (listener : Listener) (w : World)
      → Step s w (authorize_transaction s tx listener w).1
  resolves :
      (id : String) (outcome : DecisionOutcome) (resolved_by note : String) (role : Option String)
      (w : World)
      → Step s w (resolve_hold s id outcome resolved_by note role w).1
  claims :
      (identifier : String) (e : Expected) (w : World) → Step s w (claim_token s identifier e w).1
  passes : (w later : World) → later.tables ≡ w.tables → Step s w later

pub data History (s : Deployment) : World → World → Type 0 where
  still : (w : World) → History s w w
  then_step : {w v u : World} → History s w v → Step s v u → History s w u

module _ {s : Deployment} where
  Step-IsKeyed : {w u : World} → Step s w u → IsKeyed w.tables → IsKeyed u.tables
  Step-IsKeyed (authorizes tx listener w) keyed =
      (Keeps-authorize IsKeyed-Allows s listener tx).at w keyed
  Step-IsKeyed (resolves id outcome resolved_by note role w) keyed =
      (Keeps-resolve_hold IsKeyed-Allows s id outcome resolved_by note role).at w keyed
  Step-IsKeyed (claims identifier e w) keyed =
      (Keeps-claim_token IsKeyed-Allows s identifier e).at w keyed
  Step-IsKeyed (passes w later same) keyed = subst IsKeyed (sym same) keyed

  -- Whatever requests follow each other, with whatever failures on the way: if at first every actor,
  -- decision, receipt and token is on record under its own identifier, so it is at the end.
  pub History-IsKeyed : {w u : World} → History s w u → IsKeyed w.tables → IsKeyed u.tables
  History-IsKeyed (still w) keyed = keyed
  History-IsKeyed (then_step before step) keyed = Step-IsKeyed step (History-IsKeyed before keyed)
