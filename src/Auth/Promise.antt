-- ===== src/Auth/Promise.antt =====
-- For internal/identity/auth: what the service promises of the tokens' digests, call by call.
use control_center_developme.Prelude.{
  ℕ, String, ◌≡◌, refl, ap, ◌∙◌, ◌⊎◌, inl, inr, Bool, true, false, Option, none, some, Bool-cases,
  ok, Result-cases, find, put, =s_refl, find-put, ◌&&◌,
}
use control_center_developme.Audit.Types.{Logger}
use control_center_developme.Login.Protection.{record_success}
use control_center_developme.Auth.Types.{User, Session, LoginInput}
use control_center_developme.Auth.Store.{MemoryStore, create_session, with_activity}
use control_center_developme.Auth.Tokens.{
  unused, Action, keep, issue, drop, perform, status, Performs, put-issues, drop-issue,
}
use control_center_developme.Auth.Setup.{AuthPlatform, Service, ServiceState, Random}
use control_center_developme.Auth.Service.{
  new_session, login_issued, login_session, login_valid, login_denied, passes, login_open,
}
use control_center_developme.Auth.Sessions.{audited}
use control_center_developme.Auth.Refine.{
  kept, set_last_login-sessions, create_session-parts, revoke_by_digest-Performs,
}

module _ {Log : Type 0} (platform : AuthPlatform) (logger : Logger Log) (service : Service) where
  -- The sessions behind a change of state are what one of the actions makes of them.
  abbrev pub Does : (Action → Type 0) → ServiceState Log → ServiceState Log → Type 0
  Does P s t =
      (action : Action) × P action
      × Performs action s.store.sessions_by_digest t.store.sessions_by_digest

  pub Does-keep :
      (P : Action → Type 0) (s t : ServiceState Log)
      → P keep
      → t.store.sessions_by_digest ≡ s.store.sessions_by_digest
      → Does P s t
  Does-keep P s t p same =
      (keep, p, kept s.store.sessions_by_digest t.store.sessions_by_digest same)

  pub audited-state :
      {A : Type 0} (a : A) (r : ServiceState Log × Bool)
      → (audited platform logger service a r).0 ≡ r.0
  audited-state a (s, true) = refl
  audited-state a (s, false) = refl

  -- A login keeps all digests as they are, or issues its token's, or spends it where the event of
  -- the login cannot be written. It issues a digest that is unused.
  abbrev pub LoginPermits : Option String → String → MemoryStore → Action → Type 0
  LoginPermits drawn user_id s action =
      (action ≡ keep)
      ⊎ ((token : String) × (drawn ≡ some token)
          × (status (platform.digest_token token) s ≡ unused)
          × ((action ≡ issue (platform.digest_token token) user_id)
              ⊎ (action ≡ drop (platform.digest_token token))))

  -- The state in which the event of a new session is written.
  abbrev stored : Session → ServiceState Log → ServiceState Log
  stored session s = record s {
    store = record (s.store) {
      sessions_by_digest =
          put session.token_digest (with_activity session) s.store.sessions_by_digest;
    };
  }

  login_issued-Does :
      (user : User) (session : Session) (token : String) (now : ℕ) (s : ServiceState Log)
      (log : Log) (written : Bool)
      → find session.token_digest s.store.sessions_by_digest ≡ none
      → session.revoked_at ≡ none
      → Does
          (λ a. (a ≡ issue session.token_digest session.user_id) ⊎ (a ≡ drop session.token_digest))
          s
          (login_issued platform logger service user session token now
            (record (stored session s) { log = log }, written)).0
  unfolding login_issued
  login_issued-Does user session token now s log true new fresh = (
    issue session.token_digest session.user_id,
    inl refl,
    λ digest.
        ap (λ m. status digest (record s.store { sessions_by_digest = m }))
          (set_last_login-sessions user.id now (stored session s).store)
        ∙ put-issues session.token_digest (with_activity session) s.store.sessions_by_digest new
            fresh digest,
  )
  login_issued-Does user session token now s log false new fresh = (
    drop session.token_digest,
    inr refl,
    λ digest.
        revoke_by_digest-Performs session.token_digest now (stored session s).store
          (with_activity session) (rw (find-put, =s_refl) refl) digest
        ∙ ap (perform (drop session.token_digest) digest) (
            put-issues session.token_digest (with_activity session) s.store.sessions_by_digest new
              fresh digest)
        ∙ drop-issue session.token_digest session.user_id digest (status digest s.store),
  )

  login_session-Does :
      (user : User) (input : LoginInput) (token id : String) (now : ℕ) (s : ServiceState Log)
      → Does
          (LoginPermits (some token) user.id s.store)
          s
          (login_session platform logger service user
            (new_session platform logger service input now user token id)
            token
            now
            s).0
  unfolding login_session
  login_session-Does user input token id now s =
      let session : Session = new_session platform logger service input now user token id in
      elim (Result-cases (create_session session user.password_hash s.store)) [
        | inr (e, h) ↦
            rw (h, login_session)
              (Does-keep (LoginPermits (some token) user.id s.store) s s (inl refl) refl)
        | inl (next, h) ↦
            let (new, made) = create_session-parts session user.password_hash s.store next h in
            let (action, permitted, performs) =
              login_issued-Does user session token now s _ _ new refl in
            rw (h, login_session, made)
              (action, inr (token, refl, rw new refl, permitted), performs)
      ]

  login_valid-Does :
      (input : LoginInput) (now : ℕ) (id : String) (drawn : Option String) (user : User)
      (s : ServiceState Log)
      → Does
          (LoginPermits drawn user.id s.store)
          s
          (login_valid platform logger service input now id drawn user s).0
  unfolding login_valid
  login_valid-Does input now id none user s =
      Does-keep (LoginPermits none user.id s.store) s s (inl refl) refl
  login_valid-Does input now id (some token) user s = login_session-Does user input token id now s

  pub login_open-Does :
      (username : String) (input : LoginInput) (now : ℕ) (random : Random) (user : User)
      (s : ServiceState Log)
      → Does
          (LoginPermits random.token user.id s.store)
          s
          (login_open platform logger service username input now random (ok user) s).0
  unfolding login_open login_denied
  login_open-Does username input now random user s =
      elim (Bool-cases (
        passes platform logger service (platform.verify input.password user.password_hash)
        && user.enabled)) [
          | inr h ↦ rw h (
              Does-keep (LoginPermits random.token user.id s.store) s
                (login_denied platform logger service username input now s).0 (inl refl) refl)
          | inl h ↦ rw h (
              login_valid-Does input now random.id random.token user
                (record s { protector = record_success platform.keys username s.protector }))
        ]
