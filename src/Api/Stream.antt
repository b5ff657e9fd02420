-- ===== src/Api/Stream.antt =====
-- The event stream of api/authorization.py.
use zonegate_backend.Runtime.{World, Exception}
use zonegate_backend.Runtime.Quiet.{quiet}
use zonegate_backend.Api.Authorizations.{
  stream_authorization, request_authorization, run_stream, read_queue, closing, stage, Message,
  on_stage,
}
use zonegate_backend.Authorization.Service.Listening.{Agrees-authorize}
use zonegate_backend.Prelude.{
  List, ◌≡◌, map, ◌++◌, some, ◌∷◌, [], none, true, ap, ◌∙◌, Bool, Result, refl, sym,
}
use zonegate_backend.Authorization.Service.Deployment.{Deployment, Outcome}
use zonegate_backend.Authorization.Progress.{StageEvent}
use zonegate_backend.Domain.{TransactionRequest}
use zonegate_backend.Authorization.Service.{authorize_transaction}

read_queue-closed :
    (events : List StageEvent) (last : Message)
    → read_queue (map (λ e. some (stage e)) events ++ some last ∷ none ∷ [])
      ≡ (map stage events ++ last ∷ [], true)
unfolding read_queue
read_queue-closed [] last = refl
read_queue-closed (e ∷ events) last =
    ap (λ (x : List Message × Bool). (stage e ∷ x.0, x.1)) (read_queue-closed events last)

-- A stream always ends by itself: after the events that the pipeline tells its listener, in their order,
-- comes exactly one closing message, and then the end. It carries the outcome that the plain endpoint returns from the same state, or the
-- exception that it raises, and the state that it leaves, stage events apart, is the one that the
-- plain endpoint leaves.
pub stream_closes :
    (s : Deployment) (tx : TransactionRequest) (w : World)
    → ((stream_authorization s tx w).0 ≡ (
      map stage (authorize_transaction s tx on_stage (quiet w)).1.events
          ++ closing (request_authorization s tx (quiet w)).0 ∷ [],
      true,
    ))
      × (quiet (stream_authorization s tx w).1 ≡ (request_authorization s tx (quiet w)).1)
unfolding stream_authorization run_stream request_authorization
stream_closes s tx w =
    let ran = authorize_transaction s tx on_stage (quiet w) in
    let plain : authorize_transaction s tx none (quiet w) ≡ (ran.0, quiet ran.1) =
      (Agrees-authorize s tx).at (quiet w) in
    (
      read_queue-closed ran.1.events (closing ran.0)
          ∙ ap (λ (r : Result Exception Outcome). (map stage ran.1.events ++ closing r ∷ [], true))
              (sym (ap (λ (x : Result Exception Outcome × World). x.0) plain)),
      sym (ap (λ (x : Result Exception Outcome × World). x.1) plain),
    )
