-- ===== src/Tests/Api.antt =====
-- src/zonegate/api with a security officer who is signed in.
use zonegate_backend.Api.Permissions.Race.{permissions_race}
use zonegate_backend.Runtime.{◌>>=◌}
use zonegate_backend.Storage.{get_actor}
use zonegate_backend.Api.Signed.{IsSigned}
use zonegate_backend.Api.Stream.{stream_closes}
use zonegate_backend.Runtime.Quiet.{quiet}
use zonegate_backend.Api.Guards.{conflict}
use zonegate_backend.Api.Histories.{serve_all, serve_all-IsKeyed}
use zonegate_backend.Authorization.Service.{authorize_transaction}
use zonegate_backend.Runtime.{World, Tables}
use zonegate_backend.Prelude.{
  eq_iff, false, some, ◌∷◌, ◌≢◌, none, [], update, ok, ◌≡◌, Option, ap, refl, map, String, List,
  true, arith, ◌++◌, contains, ◌↔◌, err,
}
use zonegate_backend.Tests.Holds.{held, holding}
use zonegate_backend.Tests.Console.{plain}
use zonegate_backend.Tests.Fixtures.{alice, enrolled, world_of, no_table, port, release}
use zonegate_backend.Authorization.Service.{resolution_of}
use zonegate_backend.Api.Actors.{
  PermissionUpdateRequest, update_permissions, replace_permissions, cleaned, changed_detail,
}
use zonegate_backend.Api.Requests.{Service, Request, ConsoleRequest, serve}
use zonegate_backend.Api.Kept.Roster.{IsUnsigned, roster_of, unsigned_roster}
use zonegate_backend.Api.Holds.{IsSettled, resolve_endpoint_result}
use zonegate_backend.Api.Authorizations.{
  HoldResolutionRequest, resolve_endpoint, stream_authorization, request_authorization, stage,
  closing, on_stage,
}
use zonegate_backend.Api.Permissions.{IsReplaced, update_permissions_result, stale_editor_refused}
use zonegate_backend.Api.Permissions.Cleaned.{Grants, cleaned_lem}
use zonegate_backend.Prelude.Sorting.{sorted}
use zonegate_backend.Prelude.Sorting.Sorted.{IsSorted, IsDistinct}
use zonegate_backend.Domain.{Actor, ConsoleSession, DecisionOutcome}
use zonegate_backend.Authorization.Service.Deployment.{Outcome, receipt_for}
use zonegate_backend.Authorization.Service.Keyed.{IsKeyed}

abbrev eve : Actor
eve = record alice { actor_id = "eve"; role = "ROLE_SECURITY_OFFICER" }

abbrev eve_session : ConsoleSession
eve_session = record {
  session_id = "cookie";
  actor_id = "eve";
  created_at = 900;
  expires_at = 43200001000;
}

abbrev desk : World
desk = world_of (record holding {
  actors = update (update no_table "alice" alice) "eve" eve;
  actor_ids = "eve" ∷ "alice" ∷ [];
  sessions = update no_table "cookie" eve_session;
})

abbrev service : Service
service = record { deployment = port; auth = plain; secure = false }

-- The body names somebody else, in vain.
abbrev verdict : HoldResolutionRequest
verdict = record { outcome = DecisionOutcome.approve; resolved_by = some "mallory"; note = "seen" }

abbrev verdict_outcome : Outcome
verdict_outcome = (
  record held { resolution = some (resolution_of held DecisionOutcome.approve "eve" "seen" 1001) },
  record (receipt_for held 1001 none) { token = some "tok_0" },
)

endpoint_test : (resolve_endpoint port (some "cookie") "dec_9" verdict desk).0 ≡ ok verdict_outcome
unfolding resolve_endpoint zonegate_backend.Runtime.◌>>=◌ zonegate_backend.Runtime.catch
    zonegate_backend.Api.Guards.require_console_actor zonegate_backend.Api.Guards.or_raise
    zonegate_backend.Runtime.reading zonegate_backend.Runtime.call zonegate_backend.Runtime.now
    zonegate_backend.Runtime.pure zonegate_backend.Storage.get_actor
    zonegate_backend.Authorization.Console.resolve
    zonegate_backend.Authorization.Roles.is_field_role
    zonegate_backend.Authorization.Roles.normalize_role zonegate_backend.Prelude.Text.drop_prefix
    zonegate_backend.Prelude.Text.upper zonegate_backend.Prelude.Text.strip
    zonegate_backend.Storage.get_console_session
    zonegate_backend.Authorization.Console.resolve_found
    zonegate_backend.Authorization.Console.resolve_session
    zonegate_backend.Authorization.Console.console_actor
    zonegate_backend.Authorization.Service.resolve_hold zonegate_backend.Storage.get_decision
    zonegate_backend.Authorization.Service.resolution_refusal
    zonegate_backend.Authorization.Roles.holds_authority
    zonegate_backend.Authorization.Service.settle_hold zonegate_backend.Storage.save_decision
    zonegate_backend.Runtime.writing zonegate_backend.Storage.get_receipt_by_transaction_id
    zonegate_backend.Authorization.Service.approve_transaction
    zonegate_backend.Storage.get_transaction
    zonegate_backend.Authorization.Service.Deployment.issue_and_save receipt_for
    zonegate_backend.Authorization.Service.authority_role resolution_of
    zonegate_backend.Authorization.Token.issue_token zonegate_backend.Runtime.draw
    zonegate_backend.Storage.save_receipt zonegate_backend.Storage.save_token
    zonegate_backend.Storage.with_decision zonegate_backend.Prelude.Text.decimal
endpoint_test = refl

resolve_endpoint_result_example :
    IsSettled port
      (some "cookie")
      "dec_9"
      verdict
      desk
      verdict_outcome
      (resolve_endpoint port (some "cookie") "dec_9" verdict desk).1.tables
resolve_endpoint_result_example =
    resolve_endpoint_result port (some "cookie") "dec_9" verdict desk verdict_outcome endpoint_test

-- A request without a cookie.
no_cookie : IsUnsigned none desk
no_cookie id actor h = absurd (cc h)

unsigned_roster_example :
    roster_of
      (serve service none (Request.console (ConsoleRequest.post_password "12345678")) desk).1.tables
    ≡ roster_of desk.tables
unsigned_roster_example =
    unsigned_roster service none desk no_cookie
      (Request.console (ConsoleRequest.post_password "12345678"))

abbrev promotion : PermissionUpdateRequest
promotion = record {
  permissions = " gate:open " ∷ "cargo:release" ∷ "" ∷ "gate:open" ∷ [];
  expected_permissions = "cargo:release" ∷ [];
}

abbrev promoted : Actor
promoted = record alice { permissions = "cargo:release" ∷ "gate:open" ∷ [] }

abbrev demotion : PermissionUpdateRequest
demotion = record { permissions = []; expected_permissions = "cargo:release" ∷ [] }

update_test : (update_permissions (some "cookie") "alice" promotion desk).0 ≡ ok promoted
unfolding update_permissions zonegate_backend.Runtime.◌>>=◌
    zonegate_backend.Api.Guards.require_console_actor zonegate_backend.Api.Guards.or_raise
    zonegate_backend.Runtime.reading zonegate_backend.Runtime.call zonegate_backend.Runtime.now
    zonegate_backend.Runtime.pure zonegate_backend.Storage.get_actor
    zonegate_backend.Authorization.Console.resolve
    zonegate_backend.Authorization.Roles.is_field_role
    zonegate_backend.Authorization.Roles.normalize_role zonegate_backend.Prelude.Text.drop_prefix
    zonegate_backend.Prelude.Text.upper zonegate_backend.Prelude.Text.strip
    zonegate_backend.Storage.get_console_session
    zonegate_backend.Authorization.Console.resolve_found
    zonegate_backend.Authorization.Console.resolve_session
    zonegate_backend.Authorization.Console.console_actor replace_permissions cleaned
    zonegate_backend.Api.Actors.stripped_set sorted zonegate_backend.Prelude.Sorting.same_texts
    zonegate_backend.Storage.save_actor zonegate_backend.Runtime.writing
update_test = refl

update_permissions_result_example :
    (resolver : Actor) × IsSigned (some "cookie") desk resolver
    × IsReplaced promotion "alice" desk.tables promoted
        (update_permissions (some "cookie") "alice" promotion desk).1.tables
update_permissions_result_example =
    update_permissions_result (some "cookie") "alice" promotion desk promoted update_test

alice_keyed : (a : Actor) → desk.tables.actors "alice" ≡ some a → a.actor_id ≡ "alice"
alice_keyed a h = ap (λ (x : Actor). x.actor_id) (some_injective h)
  where
    some_injective : {x y : Actor} → ◌≡◌ {A = Option Actor} (some x) (some y) → y ≡ x
    some_injective e = cc

cleaned_differs : sorted (cleaned promotion.permissions) ≢ sorted demotion.expected_permissions
unfolding cleaned sorted zonegate_backend.Prelude.Text.strip
cleaned_differs h = cc

stale_editor_refused_example :
    (update_permissions
      (some "cookie")
      "alice"
      demotion
      (update_permissions (some "cookie") "alice" promotion desk).1).0
    ≢ ok alice
stale_editor_refused_example =
    stale_editor_refused (some "cookie") "alice" promotion desk
      (update_permissions (some "cookie") "alice" promotion desk).1 promoted alice_keyed update_test
      refl (some "cookie") demotion alice cleaned_differs

permissions_race_example :
    let read = get_actor "alice" desk in
    let read_again = get_actor "alice" read.1 in
    let stored = replace_permissions promotion "alice" (some alice) read_again.1 in
    let lost = replace_permissions demotion "alice" (some alice) stored.1 in
    (read.0 ≡ ok (some alice))
    × (read_again.0 ≡ ok (some alice))
    × (stored.0 ≡ ok (record alice { permissions = cleaned promotion.permissions }))
    × (lost.0 ≡ ok (record alice { permissions = cleaned demotion.permissions }))
    × (lost.1.tables.actors "alice"
        ≡ some (record alice { permissions = cleaned demotion.permissions }))
    × (((get_actor "alice" >>= replace_permissions demotion "alice") stored.1).0
        ≡ err (conflict (changed_detail "alice")))
unfolding sorted
permissions_race_example =
    permissions_race promotion demotion "alice" alice desk refl refl refl refl refl cleaned_differs

cleaned_lem_example :
    IsSorted (cleaned promotion.permissions)
    × IsDistinct (cleaned promotion.permissions)
    × ((s : String)
        → (contains s (cleaned promotion.permissions) ≡ true) ↔ Grants promotion.permissions s)
cleaned_lem_example = cleaned_lem promotion.permissions

stream_closes_example :
    ((stream_authorization port release desk).0 ≡ (
      map stage (authorize_transaction port release on_stage (quiet desk)).1.events
          ++ closing (request_authorization port release (quiet desk)).0 ∷ [],
      true,
    ))
    × (quiet (stream_authorization port release desk).1
        ≡ (request_authorization port release (quiet desk)).1)
stream_closes_example = stream_closes port release desk

desk-IsKeyed : IsKeyed enrolled
desk-IsKeyed = record {
  actors = λ k a h. ground (arith, h, eq_iff "alice" k);
  decisions = λ k d h. absurd (cc h);
  receipts = λ k r h. absurd (cc h);
  tokens = λ k x h. absurd (cc h);
}

-- An authorization that is streamed, and a listing.
abbrev day : List (Option String × Request)
day = (none, Request.post_stream release) ∷ (none, Request.get_authorizations none true none) ∷ []

serve_all-IsKeyed_example : IsKeyed (serve_all service day (world_of enrolled)).tables
serve_all-IsKeyed_example = serve_all-IsKeyed service day (world_of enrolled) desk-IsKeyed
