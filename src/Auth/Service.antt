-- ===== src/Auth/Service.antt =====
-- internal/identity/auth/service.go: logins, the check of a token, and the operations on a user's
-- sessions, over the store of memory_store.go. An operation takes the time that `now` gives and what
-- the random source and the hasher give, and returns the state behind it with its results.
use control_center_developme.Prelude.Text.{trim_space}
use control_center_developme.Prelude.{
  ℕ, ◌+◌, String, Bool, true, false, ◌&&◌, Option, none, some, [], ◌∷◌, ◌==◌, if◌then◌else◌, Result,
  ok, err, ◌>>=◌, ◌>>◌, require,
}
use control_center_developme.Audit.Types.{text, Event, Logger}
use control_center_developme.Login.Protection.{
  LoginProtector, blocked, record_failure, record_success,
}
use control_center_developme.Auth.Types.{
  AuthError, invalid_credentials, unauthenticated, audit_unavailable, other_failure, User,
  identity_of, Session, view_of, active_at, LoginInput, IssuedSession, AuthenticatedSession,
}
use control_center_developme.Auth.Store.{
  MemoryStore, normalize_username, find_user_by_id, find_user_by_username, set_last_login,
  create_session, find_session_by_digest, touch_session, revoke_by_digest,
}
use control_center_developme.Auth.Setup.{
  AuthPlatform, Service, ServiceState, Random, truncate, event_of, denied_details,
}

-- `_ = store.Operation(...)`: the store behind it, where it succeeds.
abbrev pub after : MemoryStore → Result AuthError MemoryStore → MemoryStore
after s (ok next) = next
after s (err e) = s

module _ {Log : Type 0} (platform : AuthPlatform) (logger : Logger Log) (service : Service) where
  open platform use {digest_token, decoded_length, verify, number, keys}

  abbrev pub write : Event → ServiceState Log → ServiceState Log × Bool
  write event s =
      let written : Log × Bool = logger.append event s.log in
      (record s { log = written.0 }, written.1)

  -- An enabled user, or ErrUnauthenticated
  unfoldable pub enabled_user : String → MemoryStore → Result AuthError User
  unfolding find_user_by_id
  enabled_user id s = elim (find_user_by_id id s) [
    | err e ↦ err unauthenticated
    | ok user ↦ if user.enabled then ok user else err unauthenticated
  ]

  -- validatedTokenDigest
  unfoldable pub validated_token_digest : String → Option String
  unfolding trim_space
  validated_token_digest token = elim (decoded_length (trim_space token)) [
    | none ↦ none
    | some n ↦ if n == 32 then some (digest_token (trim_space token)) else none
  ]

  -- The session that Login stores.
  abbrev pub new_session : LoginInput → ℕ → User → String → String → Session
  new_session input now user token id = record {
    id = id;
    user_id = user.id;
    token_digest = digest_token token;
    credential_version = user.password_changed_at;
    created_at = now;
    last_activity_at = now;
    expires_at = now + service.session_ttl;
    revoked_at = none;
    source_ip = input.source_ip;
    user_agent = truncate 512 input.user_agent;
  }

  -- Login, behind the event of a session that is stored
  unfoldable pub login_issued :
      User
      → Session
      → String
      → ℕ
      → ServiceState Log × Bool
      → ServiceState Log × Result AuthError IssuedSession
  unfolding revoke_by_digest set_last_login
  login_issued user session token now (s, false) = (
    record s { store = after s.store (revoke_by_digest session.token_digest now s.store) },
    err audit_unavailable,
  )
  login_issued user session token now (s, true) = (
    record s { store = after s.store (set_last_login user.id now s.store) },
    ok (record {
      token = token;
      session = view_of session;
      identity = identity_of user;
      password_change_required = user.password_change_required;
    }),
  )

  -- Login, from CreateSession on
  unfoldable pub login_session :
      User
      → Session
      → String
      → ℕ
      → ServiceState Log
      → ServiceState Log × Result AuthError IssuedSession
  unfolding create_session login_issued
  login_session user session token now s =
      elim (create_session session user.password_hash s.store) [
        | err e ↦ (s, err other_failure)
        | ok next ↦ login_issued user session token now (
            write
              (event_of "auth.login" "success" user.id "" session.source_ip
                (("session_id", text session.id) ∷ []))
              (record s { store = next }))
      ]

  -- Login, with credentials that are valid
  unfoldable pub login_valid :
      LoginInput
      → ℕ
      → String
      → Option String
      → User
      → ServiceState Log
      → ServiceState Log × Result AuthError IssuedSession
  unfolding login_session
  login_valid input now id none user s = (s, err other_failure)
  login_valid input now id (some token) user s =
      login_session user (new_session input now user token id) token now s

  -- Login, with credentials that are not valid
  unfoldable pub login_denied :
      String → LoginInput → ℕ → ServiceState Log → ServiceState Log × Result AuthError IssuedSession
  login_denied username input now s =
      let failed : LoginProtector × Bool =
        record_failure keys username input.source_ip now s.protector in
      (
        (write
            (event_of "auth.login" "denied" "" "" input.source_ip
              (denied_details username failed.1))
            (record s { protector = failed.0 })).0,
        err invalid_credentials,
      )

  -- `valid, verifyErr := s.hasher.Verify(...)`, and no error
  abbrev pub passes : Option Bool → Bool
  passes none = false
  passes (some valid) = valid

  -- Login, of a name and a source that are not blocked. Where there is no user, the password is
  -- verified against the dummy hash for its timing, and the result is not used.
  unfoldable pub login_open :
      String
      → LoginInput
      → ℕ
      → Random
      → Result AuthError User
      → ServiceState Log
      → ServiceState Log × Result AuthError IssuedSession
  unfolding login_denied login_valid
  login_open username input now random (err e) s = login_denied username input now s
  login_open username input now random (ok user) s =
      let denied : ServiceState Log × Result AuthError IssuedSession =
        login_denied username input now s in
      let accepted : ServiceState Log × Result AuthError IssuedSession =
        login_valid input now random.id random.token user
          (record s { protector = record_success keys username s.protector }) in
      if passes (verify input.password user.password_hash) && user.enabled then accepted else denied

  -- Login
  unfoldable pub login :
      LoginInput → ℕ → Random → ServiceState Log → ServiceState Log × Result AuthError IssuedSession
  unfolding blocked login_open find_user_by_username
  login input now random s =
      let username : String = normalize_username keys.to_lower input.username in
      let asked : LoginProtector × Bool = blocked keys username input.source_ip now s.protector in
      let seen : ServiceState Log = record s { protector = asked.0 } in
      let refused : ServiceState Log =
        (write (event_of "auth.login" "denied" "" "" input.source_ip (denied_details username true))
          seen).0 in
      let opened : ServiceState Log × Result AuthError IssuedSession =
        login_open username input now random (find_user_by_username keys.to_lower username s.store)
          seen in
      if asked.1 then (refused, err invalid_credentials) else opened

  -- Authenticate, up to TouchSessionByDigest: the session and its user
  unfoldable pub authentic : String → ℕ → MemoryStore → Result AuthError (Session × User)
  unfolding find_session_by_digest find_user_by_id
  authentic digest now s = do
    session ← find_session_by_digest digest s
    require (active_at now service.session_idle_timeout session) unauthenticated
    user ← find_user_by_id session.user_id s
    require (user.enabled) unauthenticated
    require (session.credential_version == user.password_changed_at) unauthenticated
    ok (session, user)

  -- Authenticate, of a digest. Every error is ErrUnauthenticated.
  unfoldable pub authenticate_digest :
      String → ℕ → MemoryStore → MemoryStore × Result AuthError AuthenticatedSession
  unfolding authentic touch_session
  authenticate_digest digest now s = elim (authentic digest now s) [
    | err e ↦ (s, err unauthenticated)
    | ok (session, user) ↦ elim (touch_session digest now s) [
      | err e ↦ (s, err unauthenticated)
      | ok next ↦ (
        next,
        ok (record {
          session = view_of session;
          identity = identity_of user;
          password_change_required = user.password_change_required;
        }),
      )
    ]
  ]

  -- Authenticate
  unfoldable pub authenticate :
      String → ℕ → ServiceState Log → ServiceState Log × Result AuthError AuthenticatedSession
  unfolding validated_token_digest authenticate_digest
  authenticate token now s = elim (validated_token_digest token) [
    | none ↦ (s, err unauthenticated)
    | some digest ↦
        let r : MemoryStore × Result AuthError AuthenticatedSession =
          authenticate_digest digest now s.store in
        (record s { store = r.0 }, r.1)
  ]
