-- ===== src/Auth/Calls.antt =====
-- For internal/identity/auth: calls of the service and of CreateUser, in the order in which they
-- take effect.
use control_center_developme.Prelude.{ℕ, String, Option, List, [], ◌∷◌}
use control_center_developme.Audit.Types.{Logger}
use control_center_developme.Auth.Types.{User, LoginInput}
use control_center_developme.Auth.Store.{create_user}
use control_center_developme.Auth.Setup.{AuthPlatform, Service, ServiceState, Random}
use control_center_developme.Auth.Service.{after, login, authenticate}
use control_center_developme.Auth.Sessions.{
  ChangePasswordInput, ListSessionsInput, RevokeSessionInput, RevokeAllSessionsInput,
  SessionSecurityPolicyInput, change_password, list_sessions,
}
use control_center_developme.Auth.Revoking.{
  revoke_session, revoke_all_sessions, logout, session_security_policy,
}

pub data Call : Type 0 where
  call_create_user : User → Call
  call_login : LoginInput → ℕ → Random → Call
  call_authenticate : String → ℕ → Call
  call_change_password : ChangePasswordInput → Option String → ℕ → Call
  call_list_sessions : ListSessionsInput → ℕ → Call
  call_revoke_session : RevokeSessionInput → ℕ → Call
  call_revoke_all : RevokeAllSessionsInput → ℕ → Call
  call_logout : String → String → ℕ → Call
  call_policy : SessionSecurityPolicyInput → Call

module _ {Log : Type 0} (platform : AuthPlatform) (logger : Logger Log) (service : Service) where
  -- The state behind a call, whatever its result.
  unfoldable pub step : Call → ServiceState Log → ServiceState Log
  unfolding create_user login authenticate change_password list_sessions revoke_session
      revoke_all_sessions logout session_security_policy
  step (call_create_user user) s = record s {
    store = after s.store (create_user platform.keys.to_lower user s.store);
  }
  step (call_login input now random) s = (login platform logger service input now random s).0
  step (call_authenticate token now) s = (authenticate platform logger service token now s).0
  step (call_change_password input hashed now) s =
      (change_password platform logger service input hashed now s).0
  step (call_list_sessions input now) s = (list_sessions platform logger service input now s).0
  step (call_revoke_session input now) s = (revoke_session platform logger service input now s).0
  step (call_revoke_all input now) s = (revoke_all_sessions platform logger service input now s).0
  step (call_logout token source now) s = (logout platform logger service token source now s).0
  step (call_policy input) s = (session_security_policy platform logger service input s).0

  unfoldable pub run : List Call → ServiceState Log → ServiceState Log
  unfolding step
  run [] s = s
  run (call ∷ calls) s = run calls (step call s)
