-- ===== src/Auth/Sessions.antt =====
-- internal/identity/auth/service.go and session_policy.go: the operations of a user on the password
-- and on the sessions. Each writes its audit events where the code does.
use control_center_developme.Prelude.{
  ℕ, String, Bool, true, false, ◌&&◌, Option, none, some, List, [], ◌∷◌, length, ◌==◌,
  if◌then◌else◌, Result, ok, err,
}
use control_center_developme.Audit.Types.{Detail, text, other, Event, Logger}
use control_center_developme.Auth.Types.{
  AuthError, conflict, audit_unavailable, invalid_current_password, password_policy, other_failure,
  User, Session, active_at, SessionSecurityView, security_view,
}
use control_center_developme.Auth.Store.{change_password_and_revoke, list_active_sessions}
use control_center_developme.Auth.Setup.{AuthPlatform, Service, ServiceState, event_of}
use control_center_developme.Auth.Service.{write, enabled_user}

pub record ChangePasswordInput : Type 0 where
  pub user_id : String
  pub current_password : String
  pub new_password : String
  pub source_ip : String

pub record ListSessionsInput : Type 0 where
  pub user_id : String
  pub current_session_id : String
  pub source_ip : String

pub record RevokeSessionInput : Type 0 where
  pub user_id : String
  pub session_id : String
  pub current_session_id : String
  pub source_ip : String

pub record RevokeSessionResult : Type 0 where
  pub session_id : String
  pub current_session_revoked : Bool

pub record RevokeAllSessionsInput : Type 0 where
  pub user_id : String
  pub source_ip : String

pub record SessionSecurityPolicyView : Type 0 where
  pub absolute_ttl_seconds : ℕ
  pub idle_timeout_seconds : ℕ
  pub activity_refreshes_idle_deadline : Bool
  pub activity_extends_absolute_expiry : Bool

pub record SessionSecurityPolicyInput : Type 0 where
  pub user_id : String
  pub source_ip : String

module _ {Log : Type 0} (platform : AuthPlatform) (logger : Logger Log) (service : Service) where
  open platform use {verify, number}

  -- `_ = s.audit.Append(...)`
  abbrev pub note : Event → ServiceState Log → ServiceState Log
  note event s = (write platform logger service event s).0

  -- A value, if the event before it was written
  abbrev pub audited {ℓ} :
      {A : Type ℓ} → A → ServiceState Log × Bool → ServiceState Log × Result AuthError A
  audited a (s, true) = (s, ok a)
  audited a (s, false) = (s, err audit_unavailable)

  abbrev pub password_event : String → User → String → List (String × Detail) → Event
  password_event outcome user source_ip details =
      event_of "auth.password_change" outcome user.id "" source_ip details

  -- The error of a store that ChangePassword reports
  abbrev pub store_error : AuthError → AuthError
  store_error conflict = conflict
  store_error _ = other_failure

  -- ChangePassword, with a new hash
  unfoldable pub store_password :
      User → String → String → ℕ → ServiceState Log → ServiceState Log × Result AuthError (Unit {0})
  unfolding change_password_and_revoke
  store_password user source_ip new_hash now s =
      elim (change_password_and_revoke user.id user.password_hash new_hash now s.store) [
        | err e ↦ (s, err (store_error e))
        | ok next ↦ audited tt (
            write platform logger service (password_event "success" user source_ip [])
              (record s { store = next }))
      ]

  -- ChangePassword, with a new password that is not the old one
  unfoldable pub hash_password :
      User
      → String
      → Option String
      → ℕ
      → ServiceState Log
      → ServiceState Log × Result AuthError (Unit {0})
  unfolding store_password
  hash_password user source_ip none now s = (
    note (password_event "denied" user source_ip (("reason", text "password_policy") ∷ [])) s,
    err password_policy,
  )
  hash_password user source_ip (some new_hash) now s = store_password user source_ip new_hash now s

  -- ChangePassword, by whether the new password is the old one
  unfoldable pub reuse_password :
      User
      → String
      → Option Bool
      → Option String
      → ℕ
      → ServiceState Log
      → ServiceState Log × Result AuthError (Unit {0})
  unfolding hash_password
  reuse_password user source_ip none hashed now s = (s, err other_failure)
  reuse_password user source_ip (some true) hashed now s = (
    note (password_event "denied" user source_ip (("reason", text "password_reuse") ∷ [])) s,
    err password_policy,
  )
  reuse_password user source_ip (some false) hashed now s =
      hash_password user source_ip hashed now s

  -- ChangePassword, of an enabled user
  unfoldable pub change_password_of :
      User
      → ChangePasswordInput
      → Option String
      → ℕ
      → ServiceState Log
      → ServiceState Log × Result AuthError (Unit {0})
  unfolding reuse_password
  change_password_of user input hashed now s =
      elim (verify input.current_password user.password_hash) [
        | some true ↦
            reuse_password user input.source_ip (verify input.new_password user.password_hash)
              hashed now s
        | _ ↦ (
          note
              (password_event "denied" user input.source_ip
                (("reason", text "invalid_current_password") ∷ []))
              s,
          err invalid_current_password,
        )
      ]

  -- ChangePassword
  unfoldable pub change_password :
      ChangePasswordInput
      → Option String
      → ℕ
      → ServiceState Log
      → ServiceState Log × Result AuthError (Unit {0})
  unfolding change_password_of enabled_user
  change_password input hashed now s =
      elim (enabled_user platform logger service input.user_id s.store) [
        | err e ↦ (s, err e)
        | ok user ↦ change_password_of user input hashed now s
      ]

  -- `!session.activeAt(...) || !session.CredentialVersion.Equal(...)`, negated
  abbrev pub usable : ℕ → User → Session → Bool
  usable now user session =
      active_at now service.session_idle_timeout session
      && session.credential_version == user.password_changed_at

  -- The loop of ListSessions
  unfoldable pub session_views : String → ℕ → User → List Session → List SessionSecurityView
  session_views current_session_id now user [] = []
  session_views current_session_id now user (session ∷ rest) =
      let views : List SessionSecurityView = session_views current_session_id now user rest in
      if usable now user session
      then security_view current_session_id service.session_idle_timeout session ∷ views
      else views

  -- ListSessions
  unfoldable pub list_sessions :
      ListSessionsInput
      → ℕ
      → ServiceState Log
      → ServiceState Log × Result AuthError (List SessionSecurityView)
  unfolding session_views enabled_user list_active_sessions
  list_sessions input now s = elim (enabled_user platform logger service input.user_id s.store) [
    | err e ↦ (s, err e)
    | ok user ↦
        let views : List SessionSecurityView =
          session_views input.current_session_id now user
            (list_active_sessions user.id now s.store) in
        audited views (
          write platform logger service
            (event_of "auth.sessions_list" "success" user.id user.id input.source_ip
              (("active_sessions", other (number (length views))) ∷ []))
            s)
  ]
