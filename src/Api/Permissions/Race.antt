-- ===== src/Api/Permissions/Race.antt =====
-- Permission updates of api/actors.py that overlap.
use mathlib.Core.Path.{subst}
use zonegate_backend.Runtime.{◌>>=◌, World, reading, call, writing, raise, pure}
use zonegate_backend.Storage.{get_actor, save_actor}
use zonegate_backend.Api.Actors.{
  PermissionUpdateRequest, replace_permissions, cleaned, changed_detail,
}
use zonegate_backend.Prelude.{
  List, String, ◌≡◌, ◌≢◌, some, [], true, false, Bool-cases, ok, ◌∷◌, refl, err, eq_refl, inl, inr,
}
use zonegate_backend.Prelude.Sorting.{same_texts, sorted, same_texts-eq}
use zonegate_backend.Domain.{Actor}
use zonegate_backend.Api.Guards.{conflict}

same_texts_refl : (xs : List String) → same_texts xs xs ≡ true
unfolding same_texts
same_texts_refl [] = refl
same_texts_refl (x ∷ xs) = rw (eq_refl, same_texts_refl xs) refl

expected_same : (xs ys : List String) → xs ≡ ys → same_texts xs ys ≡ true
expected_same xs ys e = rw e (same_texts_refl ys)

expected_differ : (xs ys : List String) → xs ≢ ys → same_texts xs ys ≡ false
expected_differ xs ys differ = elim (Bool-cases (same_texts xs ys)) [
  | inl same ↦ absurd (differ (same_texts-eq xs ys same))
  | inr apart ↦ apart
]

read_actor_runs :
    (id : String) (w : World) → w.faults ≡ [] → get_actor id w ≡ (ok (w.tables.actors id), w)
unfolding get_actor reading call
read_actor_runs id w no_faults = rw no_faults refl

-- What a read of an actor and the update of its permissions do while no storage call fails.
record IsRun (request : PermissionUpdateRequest) (id : String) (actor : Actor) (w : World)
    : Type 0 where
  later : World
  ran :
      replace_permissions request id (some actor) w
      ≡ (ok (record actor { permissions = cleaned request.permissions }), later)
  no_faults : later.faults ≡ []
  stored :
      later.tables.actors actor.actor_id
      ≡ some (record actor { permissions = cleaned request.permissions })

replace-IsRun :
    (request : PermissionUpdateRequest) (id : String) (actor : Actor) (w : World)
    → w.faults ≡ []
    → sorted actor.permissions ≡ sorted request.expected_permissions
    → IsRun request id actor w
unfolding replace_permissions save_actor writing call pure ◌>>=◌
replace-IsRun request id actor w no_faults e = record {
  later = (replace_permissions request id (some actor) w).1;
  ran = rw (expected_same _ _ e, no_faults) refl;
  no_faults = rw (expected_same _ _ e, no_faults) refl;
  stored = rw (expected_same _ _ e, no_faults, eq_refl) refl;
}

refused_after :
    (request : PermissionUpdateRequest) (id : String) (actor : Actor) (w : World)
    → w.faults ≡ []
    → w.tables.actors id ≡ some actor
    → sorted actor.permissions ≢ sorted request.expected_permissions
    → ((get_actor id >>= replace_permissions request id) w).0 ≡ err (conflict (changed_detail id))
unfolding replace_permissions get_actor reading call raise ◌>>=◌
refused_after request id actor w no_faults found differs =
    rw (no_faults, found, expected_differ _ _ differs) refl

-- Two updates of an actor that overlap, both made by editors who saw the permissions on record, while
-- no storage call fails. If both read the actor before either has written it, both return, and what
-- the first one stored is overwritten. Had the second read the actor after the first one's write, it
-- would have been refused with a conflict, where the first one's permissions are not those that the
-- second expects (the actor is on record under its own id).
pub permissions_race :
    (first second : PermissionUpdateRequest) (id : String) (actor : Actor) (w : World)
    → w.faults ≡ []
    → w.tables.actors id ≡ some actor
    → actor.actor_id ≡ id
    → sorted actor.permissions ≡ sorted first.expected_permissions
    → sorted actor.permissions ≡ sorted second.expected_permissions
    → sorted (cleaned first.permissions) ≢ sorted second.expected_permissions
    → let read = get_actor id w in
      let read_again = get_actor id read.1 in
      let stored = replace_permissions first id (some actor) read_again.1 in
      let lost = replace_permissions second id (some actor) stored.1 in
      (read.0 ≡ ok (some actor))
      × (read_again.0 ≡ ok (some actor))
      × (stored.0 ≡ ok (record actor { permissions = cleaned first.permissions }))
      × (lost.0 ≡ ok (record actor { permissions = cleaned second.permissions }))
      × (lost.1.tables.actors id ≡ some (record actor { permissions = cleaned second.permissions }))
      × (((get_actor id >>= replace_permissions second id) stored.1).0
          ≡ err (conflict (changed_detail id)))
permissions_race first second id actor w no_faults found own e e' differs =
    let reads = read_actor_runs id w no_faults in
    let one = replace-IsRun first id actor w no_faults e in
    let two = replace-IsRun second id actor one.later one.no_faults e' in
    let own_stored : one.later.tables.actors id
        ≡ some (record actor { permissions = cleaned first.permissions }) =
      subst
        (λ (k : String).
          one.later.tables.actors k
          ≡ some (record actor { permissions = cleaned first.permissions }))
        own one.stored in
    let lost : two.later.tables.actors id
        ≡ some (record actor { permissions = cleaned second.permissions }) =
      subst
        (λ (k : String).
          two.later.tables.actors k
          ≡ some (record actor { permissions = cleaned second.permissions }))
        own two.stored in
    let refused = refused_after second id _ one.later one.no_faults own_stored differs in
    rw (reads, reads, found, one.ran, two.ran) (refl, refl, refl, refl, lost, refused)
