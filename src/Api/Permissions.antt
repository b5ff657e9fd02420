-- ===== src/Api/Permissions.antt =====
-- The permission updates of api/actors.py.
pub mod Cleaned
pub mod Race
use mathlib.Core.Path.{subst}
use zonegate_backend.Runtime.{Tables, World, writing, ◌>>=◌, call, pure, reading, raise}
use zonegate_backend.Storage.{save_actor, to_front, get_actor}
use zonegate_backend.Api.Actors.{
  PermissionUpdateRequest, replace_permissions, cleaned, update_permissions, stripped_set, add_text,
  changed_detail,
}
use zonegate_backend.Prelude.{
  String, Option, ◌≡◌, some, update, Bool-cases, inr, inl, none, refl, ok, ◌≢◌, [], ap, true, ◌∙◌,
  eq_refl, sym, List, contains, ◌∷◌, ◌==◌, arith, eq_iff, ◌↔◌, ◌⊎◌, ◌||◌, false, err,
}
use zonegate_backend.Domain.{Actor}
use zonegate_backend.Runtime.Triples.{
  Triple, Triple-raise, Triple-bind, Triple-writing, Triple-pure, Triple-reading, Triple-given,
}
use zonegate_backend.Prelude.Sorting.{sorted, same_texts, same_texts-eq}
use zonegate_backend.Api.Signed.{IsSigned, required_caller}
use zonegate_backend.Prelude.Sorting.Sorted.{
  IsDistinct, IsSorted, sorted-IsSorted, sorted-IsDistinct, contains-sorted,
}
use zonegate_backend.Prelude.Text.{strip}
use zonegate_backend.Api.Guards.{conflict}

-- An update that is carried out.
pub record IsReplaced (request : PermissionUpdateRequest) (id : String) (before : Tables)
    (updated : Actor) (t : Tables) : Type 0 where
  pub actor : Actor
  pub enrolled : before.actors id ≡ some actor
  pub as_expected : sorted actor.permissions ≡ sorted request.expected_permissions
  pub only_permissions : updated ≡ (record actor { permissions = cleaned request.permissions })
  pub only_actor : t ≡ (record before {
    actors = update before.actors updated.actor_id updated;
    actor_ids = to_front updated.actor_id before.actor_ids;
  })

replace-IsReplaced :
    (request : PermissionUpdateRequest) (id : String) (before : Tables) (found : Option Actor)
    → before.actors id ≡ found
    → Triple (λ t. t ≡ before) (replace_permissions request id found) (IsReplaced request id before)
unfolding replace_permissions save_actor
replace-IsReplaced request id before none e = Triple-raise _
replace-IsReplaced request id before (some actor) e =
    elim (Bool-cases
      (same_texts (sorted actor.permissions) (sorted request.expected_permissions))) [
        | inr changed ↦ rw (replace_permissions, changed) (Triple-raise _)
        | inl same ↦
            let updated = record actor { permissions = cleaned request.permissions } in
            rw (replace_permissions, same)
              (Triple-bind
                {Q = λ _ t. t ≡ (record before {
                  actors = update before.actors updated.actor_id updated;
                  actor_ids = to_front updated.actor_id before.actor_ids;
                })}
                _ _ (Triple-writing _ (λ t p. rw p refl))
                λ _. Triple-pure updated (λ t p. record {
                  actor = actor;
                  enrolled = e;
                  as_expected = same_texts-eq _ _ same;
                  only_permissions = refl;
                  only_actor = p;
                }))
      ]

update_tail :
    (request : PermissionUpdateRequest) (id : String) (before : Tables)
    → Triple
        (λ t. t ≡ before)
        (get_actor id >>= replace_permissions request id)
        (IsReplaced request id before)
unfolding get_actor
update_tail request id before =
    Triple-bind {Q = λ found t. (before.actors id ≡ found) × (t ≡ before)} _ _
      (Triple-reading (λ t. t.actors id) (λ t p. (rw p refl, p)))
      λ found. Triple-given _ λ e. replace-IsReplaced request id before found e

-- If an update returns, its cookie is that of a signed-in authority, the actor was on record with
-- the permissions that the editor expected, in some order, and the only change is that actor's
-- record, which now has the cleaned new permissions, and its place at the front of the roster.
pub update_permissions_result :
    (cookie : Option String) (id : String) (request : PermissionUpdateRequest) (w : World)
    (updated : Actor)
    → (update_permissions cookie id request w).0 ≡ ok updated
    → (resolver : Actor) × IsSigned cookie w resolver
      × IsReplaced request id w.tables updated (update_permissions cookie id request w).1.tables
unfolding update_permissions
update_permissions_result cookie id request w updated h =
    let act = λ (resolver : Actor). get_actor id >>= replace_permissions request id in
    let caller = required_caller cookie act w updated h in
    let done =
      (update_tail request id w.tables).at caller.later caller.same_tables updated
        caller.returned in
    (caller.actor, caller.signed, subst (IsReplaced request id w.tables updated) caller.ended done)

-- An editor who looked at the roster before somebody else's update went through is refused: once an
-- update of an actor has returned, a later one that expects other permissions than those it stored
-- never returns, while nobody else writes actors and the actor was on record under its own id.
pub stale_editor_refused :
    (cookie : Option String) (id : String) (request : PermissionUpdateRequest) (w later : World)
    (updated : Actor)
    → ((a : Actor) → w.tables.actors id ≡ some a → a.actor_id ≡ id)
    → (update_permissions cookie id request w).0 ≡ ok updated
    → later.tables.actors ≡ (update_permissions cookie id request w).1.tables.actors
    → (other : Option String) (stale : PermissionUpdateRequest) (again : Actor)
    → sorted (cleaned request.permissions) ≢ sorted stale.expected_permissions
    → (update_permissions other id stale later).0 ≢ ok again
stale_editor_refused cookie id request w later updated keyed h same other stale again differs h' =
    let (_, _, first) = update_permissions_result cookie id request w updated h in
    let (_, _, second) = update_permissions_result other id stale later again h' in
    let own : updated.actor_id ≡ id =
      ap (λ (a : Actor). a.actor_id) first.only_permissions ∙ keyed first.actor first.enrolled in
    let stored : later.tables.actors id ≡ some updated =
      rw (same, first.only_actor, own, eq_refl) refl in
    let same_actor : second.actor ≡ updated = cc (second.enrolled, stored) in
    differs (
      ap sorted (
        sym (
          ap (λ (a : Actor). a.permissions) same_actor
          ∙ ap (λ (a : Actor). a.permissions) first.only_permissions))
      ∙ second.as_expected)
