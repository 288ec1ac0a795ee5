-- ===== src/Auth/Examples.antt =====
-- For internal/identity/auth: one user with one session, and a service with a concrete platform.
use control_center_developme.Prelude.Text.{text_append, trim_space, trim_left, trim_right, is_space}
use control_center_developme.Prelude.{
  String, ◌≡◌, refl, true, false, none, some, List, [], ◌∷◌, ◌=s◌, ok, err, find, put, arith,
}
use control_center_developme.Audit.Types.{Event, Logger}
use control_center_developme.Login.Protection.{
  KeyPlatform, new_login_protector, default_login_protection_policy,
}
use control_center_developme.Auth.Types.{User, Session, unauthenticated}
use control_center_developme.Auth.Store.{MemoryStore}
use control_center_developme.Auth.Tokens.{Action, perform, status, live}
use control_center_developme.Auth.Setup.{AuthPlatform, Service, ServiceState}
use control_center_developme.Auth.Service.{validated_token_digest, authenticate}
use control_center_developme.Auth.Calls.{Call, call_login, call_logout, step, run}
use control_center_developme.Auth.Permits.{Permits}
use control_center_developme.Auth.Refinement.{step-refines}
use control_center_developme.Auth.Ended.{ended-never_authenticates, ends_logout}
use control_center_developme.Auth.Granting.{authenticate_iff, granted, touched, IsAuthentic}

abbrev keys : KeyPlatform
keys = record { protected_login_key = text_append; to_lower = λ s. s; parse_ip = λ s. none }

abbrev platform : AuthPlatform
platform = record {
  keys = keys;
  digest_token = λ token. text_append "digest of " token;
  decoded_length = λ token. some 32;
  verify = λ password hash. some (password =s hash);
  number = λ n. "n";
}

abbrev logger : Logger (List Event)
logger = record { append = λ event log. (event ∷ log, true) }

abbrev service : Service
service = record { dummy_hash = "none"; session_ttl = 1000; session_idle_timeout = 500 }

abbrev alice : User
alice = record {
  id = "u1";
  username = "alice";
  display_name = "Alice";
  password_hash = "secret";
  enabled = true;
  password_change_required = false;
  created_at = 1;
  password_changed_at = 1;
  last_login_at = none;
}

abbrev session : Session
session = record {
  id = "s1";
  user_id = "u1";
  token_digest = "digest of t1";
  credential_version = 1;
  created_at = 100;
  last_activity_at = 100;
  expires_at = 1100;
  revoked_at = none;
  source_ip = "10.0.0.1";
  user_agent = [];
}

abbrev store : MemoryStore
store = record {
  users_by_id = ("u1", alice) ∷ [];
  user_id_by_name = ("alice", "u1") ∷ [];
  sessions_by_digest = ("digest of t1", session) ∷ [];
}

abbrev state : ServiceState (List Event)
state = record {
  protector = new_login_protector default_login_protection_policy;
  store = store;
  log = [];
}

abbrev login_call : Call
login_call =
    call_login
      (record { username = "alice"; password = "secret"; source_ip = "10.0.0.2"; user_agent = [] })
      200 (record { token = some "t2"; id = "s2" })

-- The digest of the second token is live behind its login.
login_issues :
    status "digest of t2" (step platform logger service login_call state).store ≡ live "u1"
unfolding step find put
login_issues = refl

step-refines_example :
    (action : Action) × Permits platform logger service login_call state action
    × ((digest : String)
        → status digest (step platform logger service login_call state).store
          ≡ perform action digest (status digest store))
step-refines_example = step-refines platform logger service login_call state

digest_of_t1 : validated_token_digest platform logger service "t1" ≡ some "digest of t1"
unfolding validated_token_digest trim_space trim_left trim_right is_space
digest_of_t1 = refl

ended-never_authenticates_example :
    (authenticate platform logger service "t1" 300
      (run platform logger service (call_logout "t1" "10.0.0.1" 200 ∷ login_call ∷ []) state)).1
    ≡ err unauthenticated
unfolding find
ended-never_authenticates_example =
    ended-never_authenticates platform logger service "t1" "digest of t1"
      (call_logout "t1" "10.0.0.1" 200) state digest_of_t1 (ends_logout digest_of_t1 refl)
      (login_call ∷ []) 300

session-IsAuthentic : IsAuthentic platform logger service "digest of t1" 300 store session alice
unfolding find
session-IsAuthentic = record {
  stored = refl;
  unrevoked = refl;
  unexpired = omega arith;
  not_idle = omega arith;
  owner = refl;
  enabled = refl;
  current = refl;
}

authenticate_iff_example : authenticate platform logger service "t1" 300 state ≡ (
  record state { store = touched platform logger service "digest of t1" 300 session store },
  ok (granted platform logger service session alice),
)
authenticate_iff_example =
    (authenticate_iff platform logger service "t1" 300 state
        (record state { store = touched platform logger service "digest of t1" 300 session store })
        (granted platform logger service session alice)).1
      ("digest of t1", session, alice, digest_of_t1, session-IsAuthentic, refl, refl)
