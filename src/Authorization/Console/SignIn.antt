-- ===== src/Authorization/Console/SignIn.antt =====
-- Who can open a console session (authorization/console.py).
use zonegate_backend.Runtime.{Tables, invalid_credentials, World, raise}
use zonegate_backend.Authorization.Console.{
  ConsoleAuth, open_session, sign_in_refusal, sign_in, generic_message,
}
use zonegate_backend.Prelude.{
  String, ◌≡◌, some, true, none, false, ◌+◌, ◌*◌, update, arith, eq_iff, refl, Option, ok, inl, inr,
  Option-cases, ◌∙◌, [], err,
}
use zonegate_backend.Domain.{Actor, ConsoleSession, OperatorCredential}
use zonegate_backend.Storage.{save_console_session, get_actor, get_credential}
use zonegate_backend.Runtime.Triples.{
  Triple, Triple-bind, Triple-now, Triple-draw, Triple-writing, Triple-pure, Triple-reading,
  Triple-given, Triple-raise, reading_runs,
}
use zonegate_backend.Authorization.Roles.{is_field_role}
use zonegate_backend.Authorization.Token.{microseconds}

module _ (auth : ConsoleAuth) (actor_id password : String) where
  -- What a sign-in that opens a session has found, and what it has stored.
  pub record SignsIn (before : Tables) (opened : Actor × ConsoleSession) (t : Tables) : Type 0 where
    pub credential : OperatorCredential
    pub enrolled : before.actors actor_id ≡ some opened.0
    pub has_password : before.credentials actor_id ≡ some credential
    pub verified : auth.passwords.verify password credential.password_hash ≡ true
    pub active : opened.0.enrollment_status ≡ "ACTIVE"
    pub not_field : is_field_role (some opened.0.role) ≡ false
    pub for_actor : opened.1.actor_id ≡ actor_id
    pub lifetime :
        opened.1.expires_at ≡ opened.1.created_at + microseconds (auth.session_ttl_hours * 3600)
    pub only_session :
        t ≡ record before { sessions = update before.sessions opened.1.session_id opened.1 }

  open_session-SignsIn :
      (before : Tables) (actor : Actor) (credential : OperatorCredential)
      → before.actors actor_id ≡ some actor
      → before.credentials actor_id ≡ some credential
      → sign_in_refusal auth actor_id password (some actor) (some credential) ≡ none
      → Triple (λ t. t ≡ before) (open_session auth actor_id actor) (SignsIn before)
  unfolding open_session sign_in_refusal save_console_session
  open_session-SignsIn before actor credential enrolled has_password passes =
      Triple-bind {Q = λ _ t. t ≡ before} _ _ Triple-now λ time.
        Triple-bind {Q = λ _ t. t ≡ before} _ _ Triple-draw λ session_id.
          let session : ConsoleSession = record {
            session_id = session_id;
            actor_id = actor_id;
            created_at = time;
            expires_at = time + microseconds (auth.session_ttl_hours * 3600);
          } in
          Triple-bind
            {Q = λ _ t.
              t ≡ (record before { sessions = update before.sessions session_id session })}
            _ _ (Triple-writing _ (λ t p. rw p refl))
            λ _.
              Triple-pure (actor, session)
                λ t p. record {
                  credential = credential;
                  enrolled = enrolled;
                  has_password = has_password;
                  verified = ground (arith, passes);
                  active = ground (arith, passes, eq_iff actor.enrollment_status "ACTIVE");
                  not_field = ground (arith, passes);
                  for_actor = refl;
                  lifetime = refl;
                  only_session = p;
                }

  refused_unknown :
      (credential : Option OperatorCredential)
      → sign_in_refusal auth actor_id password none credential
        ≡ some (invalid_credentials generic_message)
  unfolding sign_in_refusal
  refused_unknown credential = refl

  refused_unset :
      (actor : Actor)
      → sign_in_refusal auth actor_id password (some actor) none
        ≡ some (invalid_credentials generic_message)
  unfolding sign_in_refusal
  refused_unset actor = refl

  sign_in-SignsIn :
      (before : Tables) → Triple (λ t. t ≡ before) (sign_in auth actor_id password) (SignsIn before)
  unfolding sign_in get_actor get_credential
  sign_in-SignsIn before =
      Triple-bind {Q = λ found t. (before.actors actor_id ≡ found) × (t ≡ before)} _ _
        (Triple-reading (λ t. t.actors actor_id) (λ t p. (rw p refl, p)))
        λ found. Triple-given _ λ enrolled.
          Triple-bind
            {Q = λ credential t. (before.credentials actor_id ≡ credential) × (t ≡ before)} _ _
            (Triple-reading (λ t. t.credentials actor_id) (λ t p. (rw p refl, p)))
            λ credential. Triple-given _ λ has_password. elim (Option-cases found) [
              | inl e ↦ rw (e, refused_unknown credential) (Triple-raise _)
              | inr (actor, e) ↦ elim (Option-cases credential) [
                | inl e' ↦ rw (e, e', refused_unset actor) (Triple-raise _)
                | inr (c, e') ↦
                    elim (Option-cases
                      (sign_in_refusal auth actor_id password (some actor) (some c))) [
                        | inl passes ↦
                            rw (e, e', passes, e)
                              (open_session-SignsIn before actor c (enrolled ∙ e)
                                (has_password ∙ e') passes)
                        | inr (x, refused) ↦ rw (e, e', refused) (Triple-raise x)
                      ]
              ]
            ]

  -- If `sign_in` returns, the actor was enrolled with ACTIVE status and not in a field role, had a
  -- credential that the password verifies against, and the only change to the tables is a session
  -- of that actor that ends after the configured time.
  pub sign_in_result :
      (w : World) (opened : Actor × ConsoleSession)
      → (sign_in auth actor_id password w).0 ≡ ok opened
      → SignsIn w.tables opened (sign_in auth actor_id password w).1.tables
  sign_in_result w opened h = (sign_in-SignsIn w.tables).at w refl opened h

-- What a sign-in must not tell apart: no such actor, an actor without a password, a wrong password.
abbrev pub IsUnknown : ConsoleAuth → String → Option Actor → Option OperatorCredential → Type 0
IsUnknown auth password none credential = Unit
IsUnknown auth password (some actor) none = Unit
IsUnknown auth password (some actor) (some c) =
    auth.passwords.verify password c.password_hash ≡ false

unknown_refused :
    (auth : ConsoleAuth) (actor_id password : String) (found : Option Actor)
    (credential : Option OperatorCredential)
    → IsUnknown auth password found credential
    → sign_in_refusal auth actor_id password found credential
      ≡ some (invalid_credentials generic_message)
unfolding sign_in_refusal
unknown_refused auth actor_id password none credential h = refl
unknown_refused auth actor_id password (some actor) none h = refl
unknown_refused auth actor_id password (some actor) (some c) h = rw h refl

-- While no storage call fails, a sign-in with an unknown actor, an actor without a password or a
-- wrong password raises one and the same error, whichever of the three it is and whatever the
-- actor's role and status, and changes nothing.
pub sign_in_uniform :
    (auth : ConsoleAuth) (actor_id password : String) (w : World)
    → w.faults ≡ []
    → IsUnknown auth password (w.tables.actors actor_id) (w.tables.credentials actor_id)
    → sign_in auth actor_id password w ≡ (err (invalid_credentials generic_message), w)
unfolding sign_in get_actor get_credential raise
sign_in_uniform auth actor_id password w no_faults unknown =
    let refused = unknown_refused auth actor_id password _ _ unknown in
    reading_runs _ _ w no_faults ∙ reading_runs _ _ w no_faults ∙ rw refused refl
