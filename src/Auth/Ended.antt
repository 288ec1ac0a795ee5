-- ===== src/Auth/Ended.antt =====
-- For internal/identity/auth: the calls that end sessions, and the tokens of those sessions.
use control_center_developme.Prelude.{
  ℕ, String, ◌≡◌, refl, ◌∙◌, ap, inl, inr, true, false, Option, none, some, Bool, Option-cases, ok,
  err, Result-cases, List, ◌∷◌, find, =s_refl,
}
use control_center_developme.Audit.Types.{Logger}
use control_center_developme.Auth.Types.{User, unauthenticated}
use control_center_developme.Auth.Store.{
  find_session_by_digest, found, change_password_and_revoke, revoke_sessions_for_user,
}
use control_center_developme.Auth.Tokens.{
  live, spent, drop_all, perform, dropped, dropped_all, status, Performs,
  revoke_user_sessions-Performs,
}
use control_center_developme.Auth.Setup.{AuthPlatform, Service, ServiceState}
use control_center_developme.Auth.Service.{validated_token_digest, authenticate}
use control_center_developme.Auth.Sessions.{
  ChangePasswordInput, RevokeAllSessionsInput, change_password, change_password_of, reuse_password,
  hash_password, store_password,
}
use control_center_developme.Auth.Revoking.{
  revoke_all_sessions, revoke_all_requested, logout, logout_digest,
}
use control_center_developme.Auth.Calls.{
  Call, call_change_password, call_revoke_all, call_logout, step, run,
}
use control_center_developme.Auth.Refine.{change_password-Performs, revoke_by_digest-Performs}
use control_center_developme.Auth.Promise.{audited-state}
use control_center_developme.Auth.Permits.{IsEnabled}
use control_center_developme.Auth.Refinement.{run-spent, authenticate-spent}

module _ {Log : Type 0} (platform : AuthPlatform) (logger : Logger Log) (service : Service) where
  abbrev AllDropped : User → ServiceState Log → ServiceState Log → Type 0
  AllDropped user s t =
      Performs (drop_all user.id) s.store.sessions_by_digest t.store.sessions_by_digest

  store_password-ok :
      (user : User) (source new_hash : String) (now : ℕ) (s : ServiceState Log)
      → (store_password platform logger service user source new_hash now s).1 ≡ ok tt
      → AllDropped user s (store_password platform logger service user source new_hash now s).0
  unfolding store_password
  store_password-ok user source new_hash now s h =
      elim (Result-cases
        (change_password_and_revoke user.id user.password_hash new_hash now s.store)) [
          | inl (next, e) ↦
              rw (e, store_password, audited-state)
                (change_password-Performs user.id user.password_hash new_hash now s.store next e)
          | inr (r, e) ↦ absurd (cc (rw (e, store_password) at h))
        ]

  reuse_password-ok :
      (user : User) (source : String) (same : Option Bool) (hashed : Option String) (now : ℕ)
      (s : ServiceState Log)
      → (reuse_password platform logger service user source same hashed now s).1 ≡ ok tt
      → AllDropped user s (reuse_password platform logger service user source same hashed now s).0
  unfolding reuse_password hash_password
  reuse_password-ok user source none hashed now s h = absurd (cc h)
  reuse_password-ok user source (some true) hashed now s h = absurd (cc h)
  reuse_password-ok user source (some false) none now s h = absurd (cc h)
  reuse_password-ok user source (some false) (some new_hash) now s h =
      store_password-ok user source new_hash now s h

  change_password_of-ok :
      (user : User) (input : ChangePasswordInput) (hashed : Option String) (now : ℕ)
      (s : ServiceState Log)
      → (change_password_of platform logger service user input hashed now s).1 ≡ ok tt
      → AllDropped user s (change_password_of platform logger service user input hashed now s).0
  unfolding change_password_of
  change_password_of-ok user input hashed now s h =
      elim (Option-cases (platform.verify input.current_password user.password_hash)) [
        | inl f ↦ absurd (cc (rw (f, change_password_of) at h))
        | inr (false, f) ↦ absurd (cc (rw (f, change_password_of) at h))
        | inr (true, f) ↦
            rw (f, change_password_of)
              (reuse_password-ok user input.source_ip
                (platform.verify input.new_password user.password_hash) hashed now s
                (rw (f, change_password_of) at h))
      ]

  revoke_all_requested-ok :
      (user : User) (input : RevokeAllSessionsInput) (now count : ℕ) (s : ServiceState Log)
      (log : Log) (written : Bool)
      → (revoke_all_requested platform logger service user input now
          (record s { log = log }, written)).1
        ≡ ok count
      → AllDropped user s
          (revoke_all_requested platform logger service user input now
            (record s { log = log }, written)).0
  unfolding revoke_all_requested revoke_sessions_for_user
  revoke_all_requested-ok user input now count s log false h = absurd (cc h)
  revoke_all_requested-ok user input now count s log true h =
      rw audited-state (revoke_user_sessions-Performs user.id now s.store.sessions_by_digest)

  -- Calls that end the session of a token's digest.
  pub data Ends (digest : String) (s : ServiceState Log) : Call → Type 0 where
    ends_logout :
        {token source : String} {now : ℕ} {user_id : String}
        → validated_token_digest platform logger service token ≡ some digest
        → status digest s.store ≡ live user_id
        → Ends digest s (call_logout token source now)
    ends_password :
        {input : ChangePasswordInput} {hashed : Option String} {now : ℕ} {user : User}
        → IsEnabled platform logger service input.user_id user s
        → status digest s.store ≡ live user.id
        → (change_password platform logger service input hashed now s).1 ≡ ok tt
        → Ends digest s (call_change_password input hashed now)
    ends_all :
        {input : RevokeAllSessionsInput} {now count : ℕ} {user : User}
        → IsEnabled platform logger service input.user_id user s
        → status digest s.store ≡ live user.id
        → (revoke_all_sessions platform logger service input now s).1 ≡ ok count
        → Ends digest s (call_revoke_all input now)

  drop_all-live : (digest id : String) → perform (drop_all id) digest (live id) ≡ spent
  unfolding perform dropped_all
  drop_all-live digest id = rw (=s_refl id) refl

  logout_digest-spent :
      (digest source : String) (now : ℕ) (s : ServiceState Log) (user_id : String)
      → status digest s.store ≡ live user_id
      → status digest (logout_digest platform logger service digest source now s).0.store ≡ spent
  unfolding logout_digest find_session_by_digest found perform dropped
  logout_digest-spent digest source now s user_id h =
      elim (Option-cases (find digest s.store.sessions_by_digest)) [
        | inl f ↦ absurd (cc (rw f at h))
        | inr (session, f) ↦
            rw (f, logout_digest, audited-state)
              (revoke_by_digest-Performs digest now s.store session f digest
                ∙ rw (=s_refl digest) refl)
      ]

  logout-spent :
      (token digest source : String) (now : ℕ) (s : ServiceState Log) (user_id : String)
      → validated_token_digest platform logger service token ≡ some digest
      → status digest s.store ≡ live user_id
      → status digest (logout platform logger service token source now s).0.store ≡ spent
  unfolding logout
  logout-spent token digest source now s user_id valid h =
      rw (valid, logout) (logout_digest-spent digest source now s user_id h)

  change_password-spent :
      (digest : String) (input : ChangePasswordInput) (hashed : Option String) (now : ℕ)
      (s : ServiceState Log) (user : User)
      → IsEnabled platform logger service input.user_id user s
      → status digest s.store ≡ live user.id
      → (change_password platform logger service input hashed now s).1 ≡ ok tt
      → status digest (change_password platform logger service input hashed now s).0.store ≡ spent
  unfolding change_password
  change_password-spent digest input hashed now s user enabled h done =
      rw (enabled, change_password)
        (change_password_of-ok user input hashed now s (rw (enabled, change_password) at done)
            digest
          ∙ ap (perform (drop_all user.id) digest) h
          ∙ drop_all-live digest user.id)

  revoke_all-spent :
      (digest : String) (input : RevokeAllSessionsInput) (now count : ℕ) (s : ServiceState Log)
      (user : User)
      → IsEnabled platform logger service input.user_id user s
      → status digest s.store ≡ live user.id
      → (revoke_all_sessions platform logger service input now s).1 ≡ ok count
      → status digest (revoke_all_sessions platform logger service input now s).0.store ≡ spent
  unfolding revoke_all_sessions
  revoke_all-spent digest input now count s user enabled h done =
      rw (enabled, revoke_all_sessions)
        (revoke_all_requested-ok user input now count s _ _
            (rw (enabled, revoke_all_sessions) at done) digest
          ∙ ap (perform (drop_all user.id) digest) h
          ∙ drop_all-live digest user.id)

  step-Ends :
      (digest : String) (s : ServiceState Log) {call : Call}
      → Ends digest s call
      → status digest (step platform logger service call s).store ≡ spent
  unfolding step
  step-Ends digest s
        (ends_logout {token = token} {source = source} {now = now} {user_id = id} valid h) =
      logout-spent token digest source now s id valid h
  step-Ends digest s
        (ends_password {input = input} {hashed = hashed} {now = now} {user = user} e h done) =
      change_password-spent digest input hashed now s user e h done
  step-Ends digest s (ends_all {input = input} {now = now} {count = count} {user = user} e h done) =
      revoke_all-spent digest input now count s user e h done

  -- After a logout of its token, or a change of password or a revocation of all sessions of its
  -- enabled user that report no error, a session that was live is over: whatever calls follow, its
  -- token is not authenticated at any time.
  pub ended-never_authenticates :
      (token digest : String) (call : Call) (s : ServiceState Log)
      → validated_token_digest platform logger service token ≡ some digest
      → Ends digest s call
      → (calls : List Call) (now : ℕ)
      → (authenticate platform logger service token now
          (run platform logger service (call ∷ calls) s)).1
        ≡ err unauthenticated
  unfolding run
  ended-never_authenticates token digest call s valid ends calls now =
      authenticate-spent platform logger service token digest now
        (run platform logger service calls (step platform logger service call s)) valid
        (run-spent platform logger service digest calls (step platform logger service call s)
          (step-Ends digest s ends))
