-- ===== src/App/Start.antt =====
-- The start of app.py, step by step.
use Prim.Native.String.{count}
use zonegate_backend.Runtime.{now, Tables, draw}
use zonegate_backend.Storage.{
  save_actor, save_credential, save_device_binding, get_actor, get_credential,
}
use zonegate_backend.Prelude.{
  String, ℕ, Option, List, ◌≡◌, some, none, All, refl, Bool-cases, eq_refl, ltb, [], ◌∷◌, suc, inl,
  inr,
}
use zonegate_backend.Authorization.Console.{ConsoleAuth, set_password, min_password_length}
use zonegate_backend.Domain.{OperatorCredential, Actor, DeviceBinding}
use zonegate_backend.App.Seeded.{
  IsGrown, Grows, HasActor, HasCredential, Anything, Grows-writing, Grows-reading, added,
  Grows-pure, Grows-quiet, Grows-weaken, Grows-then, Grows-raise,
}
use zonegate_backend.App.Seeding.{
  save_demo_actor, seed_operator, save_password, save_authority, ensure_password, seed_authorities,
  ensure_authority, demo_actor, authority_actor, demo_binding,
}

kept_actor : (id : String) (t u : Tables) → IsGrown t u → HasActor t id → HasActor u id
kept_actor id t u g (a, h) = (a, g.actors id a h)

kept_credential :
    (id : String) (t u : Tables) → IsGrown t u → HasCredential t id → HasCredential u id
kept_credential id t u g (c, h) = (c, g.credentials id c h)

-- Saving an actor that is not on record.
saved_actor :
    (actor : Actor)
    → Grows
        (λ t. t.actors actor.actor_id ≡ none)
        (save_actor actor)
        (λ t. HasActor t actor.actor_id)
unfolding save_actor
saved_actor actor = Grows-writing _ λ t free. (
  record {
    actors = added t.actors actor.actor_id actor free;
    credentials = λ id c h. h;
    sessions = refl;
    decisions = refl;
    receipts = refl;
    tokens = refl;
  },
  (actor, rw eq_refl refl),
)

saved_binding : (binding : DeviceBinding) → Grows Anything (save_device_binding binding) Anything
unfolding save_device_binding
saved_binding binding = Grows-writing _ λ t p. (
  record {
    actors = λ id a h. h;
    credentials = λ id c h. h;
    sessions = refl;
    decisions = refl;
    receipts = refl;
    tokens = refl;
  },
  tt,
)

saved_credential :
    (credential : OperatorCredential)
    → Grows
        (λ t. t.credentials credential.actor_id ≡ none)
        (save_credential credential)
        (λ t. HasCredential t credential.actor_id)
unfolding save_credential
saved_credential credential = Grows-writing _ λ t free. (
  record {
    actors = λ id a h. h;
    credentials = added t.credentials credential.actor_id credential free;
    sessions = refl;
    decisions = refl;
    receipts = refl;
    tokens = refl;
  },
  (credential, rw eq_refl refl),
)

Grows-save_demo_actor :
    (found : Option Actor)
    → Grows
        (λ t. t.actors demo_actor.actor_id ≡ found)
        (save_demo_actor found)
        (λ t. HasActor t demo_actor.actor_id)
unfolding save_demo_actor now
Grows-save_demo_actor (some actor) = Grows-pure λ t h. (actor, h)
Grows-save_demo_actor none =
    Grows-quiet now _ (λ w. refl)
      λ time.
        Grows-weaken (λ t (h, _). h)
          (Grows-then _ _ (kept_actor demo_actor.actor_id) (saved_actor demo_actor)
            (saved_binding (demo_binding time)))

pub Grows-seed_operator : Grows Anything seed_operator (λ t. HasActor t demo_actor.actor_id)
unfolding seed_operator get_actor
Grows-seed_operator = Grows-reading _ _ Grows-save_demo_actor

module _ (auth : ConsoleAuth) (password : String) where
  Grows-save_authority :
      (id : String) (index : ℕ) (role : String) (found : Option Actor)
      → Grows (λ t. t.actors id ≡ found) (save_authority id index role found) (λ t. HasActor t id)
  unfolding save_authority
  Grows-save_authority id index role (some actor) = Grows-pure λ t h. (actor, h)
  Grows-save_authority id index role none = saved_actor (authority_actor id index role)

  Grows-ensure_authority :
      (id : String) (index : ℕ) (role : String)
      → Grows Anything (ensure_authority id index role) (λ t. HasActor t id)
  unfolding ensure_authority get_actor
  Grows-ensure_authority id index role = Grows-reading _ _ (Grows-save_authority id index role)

  Grows-set_password :
      (id : String)
      → Grows
          (λ t. t.credentials id ≡ none)
          (set_password auth id password)
          (λ t. HasCredential t id)
  unfolding set_password now draw
  Grows-set_password id = elim (Bool-cases (ltb (count password) min_password_length)) [
    | inl short ↦ rw (set_password, short) (Grows-raise _)
    | inr long ↦
        rw (set_password, long)
          (Grows-quiet draw _ (λ w. refl)
            λ salt. Grows-quiet now _ (λ w. refl) λ time. saved_credential _)
  ]

  Grows-save_password :
      (id : String) (found : Option OperatorCredential)
      → Grows
          (λ t. t.credentials id ≡ found)
          (save_password auth password id found)
          (λ t. HasCredential t id)
  unfolding save_password
  Grows-save_password id (some credential) = Grows-pure λ t h. (credential, h)
  Grows-save_password id none = Grows-set_password id

  Grows-ensure_password :
      (id : String) → Grows Anything (ensure_password auth password id) (λ t. HasCredential t id)
  unfolding ensure_password get_credential
  Grows-ensure_password id = Grows-reading _ _ (Grows-save_password id)

  pub Grows-seed_authorities :
      (index : ℕ) (authorities : List (String × String))
      → Grows Anything
          (seed_authorities auth password index authorities)
          (λ t. All (λ x. HasActor t x.0 × HasCredential t x.0) authorities)
  unfolding seed_authorities
  Grows-seed_authorities index [] = Grows-pure λ t h. tt
  Grows-seed_authorities index ((id, role) ∷ rest) =
      Grows-weaken (λ t (actor, (credential, others)). ((actor, credential), others))
        (Grows-then _ _ (kept_actor id) (Grows-ensure_authority id index role) (
          Grows-then _ _ (kept_credential id) (Grows-ensure_password id)
            (Grows-seed_authorities (suc index) rest)))
