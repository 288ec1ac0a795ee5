-- ===== src/Auth/Types.antt =====
-- internal/identity/auth/types.go: users, sessions and what the service shows of them.
use control_center_developme.Prelude.{
  ℕ, ◌+◌, String, Bool, not, ◌&&◌, Option, none, some, List, ltb, ◌==◌, ◌=s◌, if◌then◌else◌,
}

-- The errors; the texts are in the source. `other_failure` is an error that is passed on.
pub data AuthError : Type 0 where
  invalid_credentials unauthenticated not_found conflict audit_unavailable : AuthError
  invalid_current_password password_policy other_failure : AuthError

-- A missing `LastLoginAt` is `none`.
pub record User : Type 0 where
  pub id : String
  pub username : String
  pub display_name : String
  pub password_hash : String
  pub enabled : Bool
  pub password_change_required : Bool
  pub created_at : ℕ
  pub password_changed_at : ℕ
  pub last_login_at : Option ℕ

pub record Identity : Type 0 where
  pub id : String
  pub username : String
  pub display_name : String
  pub created_at : ℕ

-- User.Identity
abbrev pub identity_of : User → Identity
identity_of u = record {
  id = u.id;
  username = u.username;
  display_name = u.display_name;
  created_at = u.created_at;
}

-- A missing `RevokedAt` is `none`. The user agent is cut at a byte, so it is a list of bytes.
pub record Session : Type 0 where
  pub id : String
  pub user_id : String
  pub token_digest : String
  pub credential_version : ℕ
  pub created_at : ℕ
  pub last_activity_at : ℕ
  pub expires_at : ℕ
  pub revoked_at : Option ℕ
  pub source_ip : String
  pub user_agent : List ℕ

pub record SessionView : Type 0 where
  pub id : String
  pub created_at : ℕ
  pub expires_at : ℕ

-- Session.View
abbrev pub view_of : Session → SessionView
view_of s = record { id = s.id; created_at = s.created_at; expires_at = s.expires_at }

-- Session.activityAt
abbrev pub activity_at : Session → ℕ
activity_at s = if s.last_activity_at == 0 then s.created_at else s.last_activity_at

-- Session.idleExpiresAt
abbrev pub idle_expires_at : ℕ → Session → ℕ
idle_expires_at idle_timeout s =
    let idle_expiry : ℕ = activity_at s + idle_timeout in
    if not (s.expires_at == 0) && ltb s.expires_at idle_expiry then s.expires_at else idle_expiry

abbrev pub is_none : Option ℕ → Bool
is_none none = Bool.true
is_none (some t) = Bool.false

-- Session.activeAt
abbrev pub active_at : ℕ → ℕ → Session → Bool
active_at now idle_timeout s =
    is_none s.revoked_at && ltb now s.expires_at && ltb now (idle_expires_at idle_timeout s)

pub record SessionSecurityView : Type 0 where
  pub id : String
  pub created_at : ℕ
  pub last_activity_at : ℕ
  pub idle_expires_at : ℕ
  pub expires_at : ℕ
  pub source_ip : String
  pub user_agent : List ℕ
  pub current : Bool

-- Session.SecurityView
abbrev pub security_view : String → ℕ → Session → SessionSecurityView
security_view current_session_id idle_timeout s = record {
  id = s.id;
  created_at = s.created_at;
  last_activity_at = activity_at s;
  idle_expires_at = idle_expires_at idle_timeout s;
  expires_at = s.expires_at;
  source_ip = s.source_ip;
  user_agent = s.user_agent;
  current = s.id =s current_session_id;
}

pub record LoginInput : Type 0 where
  pub username : String
  pub password : String
  pub source_ip : String
  pub user_agent : List ℕ

pub record IssuedSession : Type 0 where
  pub token : String
  pub session : SessionView
  pub identity : Identity
  pub password_change_required : Bool

pub record AuthenticatedSession : Type 0 where
  pub session : SessionView
  pub identity : Identity
  pub password_change_required : Bool
