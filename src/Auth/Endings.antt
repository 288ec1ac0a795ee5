-- ===== src/Auth/Endings.antt =====
-- For internal/identity/auth: what an operation of a user may do to the tokens' digests.
use control_center_developme.Prelude.{
  ℕ, String, ◌≡◌, refl, ◌⊎◌, inl, inr, true, false, Option, none, some, Bool, Option-cases,
  Result-cases,
}
use control_center_developme.Audit.Types.{Logger}
use control_center_developme.Auth.Types.{User, Session}
use control_center_developme.Auth.Store.{
  change_password_and_revoke, revoke_for_user, revoke_sessions_for_user,
}
use control_center_developme.Auth.Tokens.{Action, keep, drop_all, revoke_user_sessions-Performs}
use control_center_developme.Auth.Dropping.{DropsOf}
use control_center_developme.Auth.Setup.{AuthPlatform, Service, ServiceState}
use control_center_developme.Auth.Service.{enabled_user}
use control_center_developme.Auth.Sessions.{
  ChangePasswordInput, ListSessionsInput, SessionSecurityPolicyInput, RevokeSessionInput,
  RevokeAllSessionsInput, store_password, hash_password, reuse_password, change_password_of,
  change_password, list_sessions,
}
use control_center_developme.Auth.Revoking.{
  revocable, revoke_target, revoke_session, revoke_all_requested, revoke_all_sessions,
  session_security_policy,
}
use control_center_developme.Auth.Calls.{
  call_change_password, call_list_sessions, call_revoke_session, call_revoke_all, call_policy,
}
use control_center_developme.Auth.Refine.{kept, revoke_for_user-Performs, change_password-Performs}
use control_center_developme.Auth.Promise.{Does, Does-keep, audited-state}
use control_center_developme.Auth.Permits.{Permits, CallDoes}

module _ {Log : Type 0} (platform : AuthPlatform) (logger : Logger Log) (service : Service) where
  abbrev DropsAll : String → Action → Type 0
  DropsAll id action = (action ≡ keep) ⊎ (action ≡ drop_all id)

  store_password-Does :
      (user : User) (source new_hash : String) (now : ℕ) (s : ServiceState Log)
      → Does platform logger service
          (DropsAll user.id)
          s
          (store_password platform logger service user source new_hash now s).0
  unfolding store_password
  store_password-Does user source new_hash now s =
      elim (Result-cases
        (change_password_and_revoke user.id user.password_hash new_hash now s.store)) [
          | inl (next, h) ↦
              rw (h, store_password, audited-state)
                (
                  drop_all user.id,
                  inr refl,
                  change_password-Performs user.id user.password_hash new_hash now s.store next h,
                )
          | inr (e, h) ↦
              rw (h, store_password) (Does-keep platform logger service _ s s (inl refl) refl)
        ]

  reuse_password-Does :
      (user : User) (source : String) (same : Option Bool) (hashed : Option String) (now : ℕ)
      (s : ServiceState Log)
      → Does platform logger service
          (DropsAll user.id)
          s
          (reuse_password platform logger service user source same hashed now s).0
  unfolding reuse_password hash_password
  reuse_password-Does user source none hashed now s =
      Does-keep platform logger service _ s s (inl refl) refl
  reuse_password-Does user source (some true) hashed now s =
      (keep, inl refl, kept s.store.sessions_by_digest _ refl)
  reuse_password-Does user source (some false) none now s =
      (keep, inl refl, kept s.store.sessions_by_digest _ refl)
  reuse_password-Does user source (some false) (some new_hash) now s =
      store_password-Does user source new_hash now s

  change_password_of-Does :
      (user : User) (input : ChangePasswordInput) (hashed : Option String) (now : ℕ)
      (s : ServiceState Log)
      → Does platform logger service
          (DropsAll user.id)
          s
          (change_password_of platform logger service user input hashed now s).0
  unfolding change_password_of
  change_password_of-Does user input hashed now s =
      elim (Option-cases (platform.verify input.current_password user.password_hash)) [
        | inl f ↦
            rw (f, change_password_of) (keep, inl refl, kept s.store.sessions_by_digest _ refl)
        | inr (false, f) ↦
            rw (f, change_password_of) (keep, inl refl, kept s.store.sessions_by_digest _ refl)
        | inr (true, f) ↦
            rw (f, change_password_of)
              (reuse_password-Does user input.source_ip
                (platform.verify input.new_password user.password_hash) hashed now s)
      ]

  pub change_password-Does :
      (input : ChangePasswordInput) (hashed : Option String) (now : ℕ) (s : ServiceState Log)
      → CallDoes platform logger service
          (call_change_password input hashed now)
          s
          (change_password platform logger service input hashed now s).0
  unfolding change_password Permits
  change_password-Does input hashed now s =
      elim (Result-cases (enabled_user platform logger service input.user_id s.store)) [
        | inr (e, h) ↦
            rw (h, change_password) (Does-keep platform logger service _ s s (inl refl) refl)
        | inl (user, h) ↦
            let (action, permitted, performs) = change_password_of-Does user input hashed now s in
            elim permitted [
              | inl same ↦ rw (h, change_password) (action, inl same, performs)
              | inr gone ↦ rw (h, change_password) (action, inr (user, refl, gone), performs)
            ]
      ]

  pub list_sessions-Does :
      (input : ListSessionsInput) (now : ℕ) (s : ServiceState Log)
      → CallDoes platform logger service
          (call_list_sessions input now)
          s
          (list_sessions platform logger service input now s).0
  unfolding list_sessions Permits
  list_sessions-Does input now s =
      elim (Result-cases (enabled_user platform logger service input.user_id s.store)) [
        | inr (e, h) ↦ rw (h, list_sessions) (Does-keep platform logger service _ s s refl refl)
        | inl (user, h) ↦
            rw (h, list_sessions, audited-state)
              (keep, refl, kept s.store.sessions_by_digest _ refl)
      ]

  pub session_security_policy-Does :
      (input : SessionSecurityPolicyInput) (s : ServiceState Log)
      → CallDoes platform logger service
          (call_policy input)
          s
          (session_security_policy platform logger service input s).0
  unfolding session_security_policy Permits
  session_security_policy-Does input s =
      elim (Result-cases (enabled_user platform logger service input.user_id s.store)) [
        | inr (e, h) ↦
            rw (h, session_security_policy) (Does-keep platform logger service _ s s refl refl)
        | inl (user, h) ↦
            rw (h, session_security_policy, audited-state)
              (keep, refl, kept s.store.sessions_by_digest _ refl)
      ]

  revoke_all_requested-Does :
      (user : User) (input : RevokeAllSessionsInput) (now : ℕ) (s : ServiceState Log) (log : Log)
      (written : Bool)
      → Does platform logger service
          (DropsAll user.id)
          s
          (revoke_all_requested platform logger service user input now
            (record s { log = log }, written)).0
  unfolding revoke_all_requested revoke_sessions_for_user
  revoke_all_requested-Does user input now s log false =
      (keep, inl refl, kept s.store.sessions_by_digest _ refl)
  revoke_all_requested-Does user input now s log true = rw audited-state (
    drop_all user.id,
    inr refl,
    revoke_user_sessions-Performs user.id now s.store.sessions_by_digest,
  )

  pub revoke_all-Does :
      (input : RevokeAllSessionsInput) (now : ℕ) (s : ServiceState Log)
      → CallDoes platform logger service
          (call_revoke_all input now)
          s
          (revoke_all_sessions platform logger service input now s).0
  unfolding revoke_all_sessions Permits
  revoke_all-Does input now s =
      elim (Result-cases (enabled_user platform logger service input.user_id s.store)) [
        | inr (e, h) ↦
            rw (h, revoke_all_sessions) (Does-keep platform logger service _ s s (inl refl) refl)
        | inl (user, h) ↦
            let (action, permitted, performs) = revoke_all_requested-Does user input now s _ _ in
            elim permitted [
              | inl same ↦ rw (h, revoke_all_sessions) (action, inl same, performs)
              | inr gone ↦ rw (h, revoke_all_sessions) (action, inr (user, refl, gone), performs)
            ]
      ]

  revoke_target-Does :
      (user : User) (input : RevokeSessionInput) (target : Session) (now : ℕ) (s : ServiceState Log)
      (log : Log) (written : Bool)
      → Does platform logger service
          (DropsOf user.id s.store.sessions_by_digest)
          s
          (revoke_target platform logger service user input target now
            (record s { log = log }, written)).0
  unfolding revoke_target
  revoke_target-Does user input target now s log false =
      (keep, inl refl, kept s.store.sessions_by_digest _ refl)
  revoke_target-Does user input target now s log true =
      elim (Result-cases (revoke_for_user user.id target.id now s.store)) [
        | inr (e, h) ↦
            rw (h, revoke_target) (keep, inl refl, kept s.store.sessions_by_digest _ refl)
        | inl (next, h) ↦
            let (action, drops, performs) =
              revoke_for_user-Performs user.id target.id now s.store next h in
            rw (h, revoke_target, audited-state) (action, drops, performs)
      ]

  pub revoke_session-Does :
      (input : RevokeSessionInput) (now : ℕ) (s : ServiceState Log)
      → CallDoes platform logger service
          (call_revoke_session input now)
          s
          (revoke_session platform logger service input now s).0
  unfolding revoke_session Permits
  revoke_session-Does input now s =
      elim (Result-cases (enabled_user platform logger service input.user_id s.store)) [
        | inr (e, h) ↦
            rw (h, revoke_session) (Does-keep platform logger service _ s s (inl refl) refl)
        | inl (user, h) ↦
            elim (Result-cases (revocable platform logger service user input now s.store)) [
              | inr (e, f) ↦
                  rw (h, revoke_session)
                    (rw (f, revoke_session)
                      (Does-keep platform logger service _ s s (inl refl) refl))
              | inl (target, f) ↦
                  let (action, drops, performs) = revoke_target-Does user input target now s _ _ in
                  rw (h, revoke_session)
                    (rw (f, revoke_session) (action, inr (user, refl, drops), performs))
            ]
      ]
