-- ===== src/Auth/Revoking.antt =====
-- internal/identity/auth/service.go and session_policy.go: RevokeSession, RevokeAllSessions, Logout
-- and SessionSecurityPolicy.
use control_center_developme.Prelude.{
  ℕ, ◌/◌, String, Bool, true, false, none, some, List, [], ◌∷◌, ◌=s◌, Result, ok, err, ◌>>=◌, ◌>>◌,
  require,
}
use control_center_developme.Audit.Types.{Detail, text, other, Event, Logger}
use control_center_developme.Auth.Types.{
  AuthError, not_found, audit_unavailable, other_failure, User, Session,
}
use control_center_developme.Auth.Store.{
  MemoryStore, find_session_by_digest, find_session_for_user, revoke_by_digest, revoke_for_user,
  revoke_sessions_for_user,
}
use control_center_developme.Auth.Setup.{
  AuthPlatform, Service, ServiceState, valid_session_id, event_of, truth,
}
use control_center_developme.Auth.Service.{after, write, enabled_user, validated_token_digest}
use control_center_developme.Auth.Sessions.{
  RevokeSessionInput, RevokeSessionResult, RevokeAllSessionsInput, SessionSecurityPolicyView,
  SessionSecurityPolicyInput, note, audited, usable,
}

module _ {Log : Type 0} (platform : AuthPlatform) (logger : Logger Log) (service : Service) where
  open platform use {number}

  abbrev pub revoke_event : String → User → String → List (String × Detail) → Event
  revoke_event outcome user source_ip details =
      event_of "auth.session_revoke" outcome user.id user.id source_ip details

  abbrev pub target_details : String → Bool → List (String × Detail)
  target_details id current = ("session_id", text id) ∷ ("current_session", truth current) ∷ []

  -- The error of a store that RevokeSession reports
  abbrev pub revoke_error : AuthError → AuthError
  revoke_error not_found = not_found
  revoke_error _ = other_failure

  -- RevokeSession, the checks: the session that it revokes
  unfoldable pub revocable : User → RevokeSessionInput → ℕ → MemoryStore → Result AuthError Session
  unfolding valid_session_id find_session_for_user
  revocable user input now s = do
    require (valid_session_id input.session_id) not_found
    target ← find_session_for_user user.id input.session_id s
    require (usable platform logger service now user target) not_found
    ok target

  -- RevokeSession, behind the event of the request
  unfoldable pub revoke_target :
      User
      → RevokeSessionInput
      → Session
      → ℕ
      → ServiceState Log × Bool
      → ServiceState Log × Result AuthError RevokeSessionResult
  unfolding revoke_for_user
  revoke_target user input target now (s, false) = (s, err audit_unavailable)
  revoke_target user input target now (s, true) =
      let current : Bool = target.id =s input.current_session_id in
      let failed : ServiceState Log =
        note platform logger service
          (revoke_event "failed" user input.source_ip
            (("session_id", text target.id) ∷ ("reason", text "session_not_active") ∷ []))
          s in
      elim (revoke_for_user user.id target.id now s.store) [
        | err e ↦ (failed, err (revoke_error e))
        | ok next ↦
            audited platform logger service
              (record { session_id = target.id; current_session_revoked = current })
              (write platform logger service
                (revoke_event "success" user input.source_ip (target_details target.id current))
                (record s { store = next }))
      ]

  -- RevokeSession. A result that comes with ErrAuditUnavailable is not modelled.
  unfoldable pub revoke_session :
      RevokeSessionInput
      → ℕ
      → ServiceState Log
      → ServiceState Log × Result AuthError RevokeSessionResult
  unfolding revocable revoke_target enabled_user
  revoke_session input now s = elim (enabled_user platform logger service input.user_id s.store) [
    | err e ↦ (s, err e)
    | ok user ↦ elim (revocable user input now s.store) [
      | err e ↦ (s, err not_found)
      | ok target ↦ revoke_target user input target now (
          write platform logger service
            (revoke_event "requested" user input.source_ip
              (target_details target.id (target.id =s input.current_session_id)))
            s)
    ]
  ]

  -- RevokeAllSessions, behind the event of the request
  unfoldable pub revoke_all_requested :
      User
      → RevokeAllSessionsInput
      → ℕ
      → ServiceState Log × Bool
      → ServiceState Log × Result AuthError ℕ
  unfolding revoke_sessions_for_user
  revoke_all_requested user input now (s, false) = (s, err audit_unavailable)
  revoke_all_requested user input now (s, true) =
      let revoked : MemoryStore × ℕ = revoke_sessions_for_user user.id now s.store in
      audited platform logger service revoked.1 (
        write platform logger service
          (event_of "auth.sessions_revoke_all" "success" user.id user.id input.source_ip
            (("revoked_sessions", other (number revoked.1)) ∷ []))
          (record s { store = revoked.0 }))

  -- RevokeAllSessions, over a store whose revocation does not fail
  unfoldable pub revoke_all_sessions :
      RevokeAllSessionsInput → ℕ → ServiceState Log → ServiceState Log × Result AuthError ℕ
  unfolding revoke_all_requested enabled_user
  revoke_all_sessions input now s =
      elim (enabled_user platform logger service input.user_id s.store) [
        | err e ↦ (s, err e)
        | ok user ↦ revoke_all_requested user input now (
            write platform logger service
              (event_of "auth.sessions_revoke_all" "requested" user.id user.id input.source_ip [])
              s)
      ]

  -- Logout, of a digest
  unfoldable pub logout_digest :
      String → String → ℕ → ServiceState Log → ServiceState Log × Result AuthError (Unit {0})
  unfolding find_session_by_digest revoke_by_digest
  logout_digest digest source_ip now s = elim (find_session_by_digest digest s.store) [
    | err e ↦ (s, ok tt)
    | ok session ↦ audited platform logger service tt (
        write platform logger service
          (event_of "auth.logout" "success" session.user_id "" source_ip
            (("session_id", text session.id) ∷ []))
          (record s { store = after s.store (revoke_by_digest digest now s.store) }))
  ]

  -- Logout
  unfoldable pub logout :
      String → String → ℕ → ServiceState Log → ServiceState Log × Result AuthError (Unit {0})
  unfolding logout_digest validated_token_digest
  logout token source_ip now s = elim (validated_token_digest platform logger service token) [
    | none ↦ (s, ok tt)
    | some digest ↦ logout_digest digest source_ip now s
  ]

  -- durationSeconds
  abbrev pub duration_seconds : ℕ → ℕ
  duration_seconds value = value / 1000000000

  -- Service.SessionSecurityPolicy
  unfoldable pub session_security_policy :
      SessionSecurityPolicyInput
      → ServiceState Log
      → ServiceState Log × Result AuthError SessionSecurityPolicyView
  unfolding enabled_user
  session_security_policy input s =
      elim (enabled_user platform logger service input.user_id s.store) [
        | err e ↦ (s, err e)
        | ok user ↦
            audited platform logger service
              (record {
                absolute_ttl_seconds = duration_seconds service.session_ttl;
                idle_timeout_seconds = duration_seconds service.session_idle_timeout;
                activity_refreshes_idle_deadline = true;
                activity_extends_absolute_expiry = false;
              })
              (write platform logger service
                (event_of "auth.session_policy_read" "success" user.id user.id input.source_ip (
                  ("absolute_ttl_seconds", other (number (duration_seconds service.session_ttl)))
                  ∷ (
                    "idle_timeout_seconds",
                    other (number (duration_seconds service.session_idle_timeout)),
                  )
                  ∷ []))
                s)
      ]
