-- ===== src/Auth/Granting.antt =====
-- For internal/identity/auth/service.go: when Authenticate accepts a token.
use control_center_developme.Prelude.{
  ℕ, ◌+◌, ◌<◌, String, ◌≡◌, ◌↔◌, refl, sym, ap, ◌∙◌, inl, inr, true, none, some, Option-cases, ok,
  Result-cases, ok-injective, arith, find, put, ltb, if◌then◌else◌, ◌==◌,
}
use control_center_developme.Audit.Types.{Logger}
use control_center_developme.Auth.Types.{
  User, identity_of, Session, view_of, active_at, activity_at, AuthenticatedSession,
}
use control_center_developme.Auth.Store.{
  MemoryStore, find_session_by_digest, find_user_by_id, touch_session, found,
}
use control_center_developme.Auth.Setup.{AuthPlatform, Service, ServiceState}
use control_center_developme.Auth.Service.{
  validated_token_digest, authentic, authenticate_digest, authenticate,
}

module _ {Log : Type 0} (platform : AuthPlatform) (logger : Logger Log) (service : Service) where
  -- What stands behind a token that is accepted.
  pub record IsAuthentic (digest : String) (now : ℕ) (s : MemoryStore) (session : Session)
      (user : User) : Type 0 where
    pub stored : find digest s.sessions_by_digest ≡ some session
    pub unrevoked : session.revoked_at ≡ none
    pub unexpired : now < session.expires_at
    pub not_idle : now < activity_at session + service.session_idle_timeout
    pub owner : find session.user_id s.users_by_id ≡ some user
    pub enabled : user.enabled ≡ true
    pub current : session.credential_version ≡ user.password_changed_at

  abbrev pub granted : Session → User → AuthenticatedSession
  granted session user = record {
    session = view_of session;
    identity = identity_of user;
    password_change_required = user.password_change_required;
  }

  authentic-IsAuthentic :
      (digest : String) (now : ℕ) (s : MemoryStore) (session : Session) (user : User)
      → authentic platform logger service digest now s ≡ ok (session, user)
      → IsAuthentic digest now s session user
  unfolding authentic find_session_by_digest find_user_by_id found
  authentic-IsAuthentic digest now s session user h = record {
    stored = ground arith;
    unrevoked = ground arith;
    unexpired = ground arith;
    not_idle = ground arith;
    owner = ground arith;
    enabled = ground arith;
    current = ground arith;
  }

  IsAuthentic-authentic :
      (digest : String) (now : ℕ) (s : MemoryStore) (session : Session) (user : User)
      → IsAuthentic digest now s session user
      → authentic platform logger service digest now s ≡ ok (session, user)
  unfolding authentic find_session_by_digest find_user_by_id found
  IsAuthentic-authentic digest now s session user a =
      let unrevoked = a.unrevoked in
      let unexpired = a.unexpired in
      let not_idle = a.not_idle in
      let active : active_at now service.session_idle_timeout session ≡ true = ground arith in
      let current : (session.credential_version == user.password_changed_at) ≡ true =
        ground (arith, a.current) in
      rw (a.stored, active, a.owner, a.enabled, current) refl

  -- The store behind a token that is accepted: the activity of its session moves forward.
  abbrev pub touched : String → ℕ → Session → MemoryStore → MemoryStore
  touched digest now session s =
      if ltb (activity_at session) now
      then record s {
        sessions_by_digest =
            put digest (record session { last_activity_at = now }) s.sessions_by_digest;
      }
      else s

  touch_session-touched :
      (digest : String) (now : ℕ) (s : MemoryStore) (session : Session) (user : User)
      → IsAuthentic digest now s session user
      → touch_session digest now s ≡ ok (touched digest now session s)
  unfolding touch_session found
  touch_session-touched digest now s session user a =
      let unexpired : ltb now session.expires_at ≡ true = ground (arith, a.unexpired) in
      rw (a.stored, a.unrevoked, unexpired) refl

  pub authenticate-IsAuthentic :
      (token digest : String) (now : ℕ) (s : ServiceState Log) (session : Session) (user : User)
      → validated_token_digest platform logger service token ≡ some digest
      → IsAuthentic digest now s.store session user
      → authenticate platform logger service token now s
        ≡ (record s { store = touched digest now session s.store }, ok (granted session user))
  unfolding authenticate authenticate_digest
  authenticate-IsAuthentic token digest now s session user valid a =
      rw (valid, authenticate)
        (rw (IsAuthentic-authentic digest now s.store session user a, authenticate_digest)
          (rw (touch_session-touched digest now s.store session user a, authenticate_digest) refl))

  accepted-parts :
      (token : String) (now : ℕ) (s next : ServiceState Log) (result : AuthenticatedSession)
      → authenticate platform logger service token now s ≡ (next, ok result)
      → (digest : String) × (session : Session) × (user : User) × (validated_token_digest platform
            logger service token
          ≡ some digest)
        × IsAuthentic digest now s.store session user
  unfolding authenticate authenticate_digest
  accepted-parts token now s next result h =
      elim (Option-cases (validated_token_digest platform logger service token)) [
        | inl e ↦ absurd (cc (rw (e, authenticate) at h))
        | inr (digest, e) ↦
            elim (Result-cases (authentic platform logger service digest now s.store)) [
              | inr (r, f) ↦
                  absurd (cc (rw (f, authenticate_digest) at (rw (e, authenticate) at h)))
              | inl (p, f) ↦
                  (digest, p.0, p.1, e, authentic-IsAuthentic digest now s.store p.0 p.1 f)
            ]
      ]

  -- Authenticate accepts a token exactly if the token has a digest under which a session is stored
  -- that is not revoked, not expired and not idle, of an enabled user whose password has not
  -- changed since; it answers with that session and that user, and all that changes is that the
  -- activity of the session moves forward to the time of the call.
  pub authenticate_iff :
      (token : String) (now : ℕ) (s : ServiceState Log) (next : ServiceState Log)
      (result : AuthenticatedSession)
      → (authenticate platform logger service token now s ≡ (next, ok result)) ↔ (
          (digest : String) × (session : Session) × (user : User) × (validated_token_digest platform
              logger service token
            ≡ some digest)
          × IsAuthentic digest now s.store session user
          × (result ≡ granted session user)
          × (next ≡ record s { store = touched digest now session s.store }))
  authenticate_iff token now s next result = (
    λ h.
        let (digest, session, user, valid, a) = accepted-parts token now s next result h in
        let same = sym h ∙ authenticate-IsAuthentic token digest now s session user valid a in
        (
          digest,
          session,
          user,
          valid,
          a,
          ok-injective result (granted session user) (ap (λ r. r.1) same),
          ap (λ r. r.0) same,
        ),
    λ (digest, session, user, valid, a, e, f).
        authenticate-IsAuthentic token digest now s session user valid a ∙ rw (e, f) refl,
  )
