-- ===== src/Auth/Store.antt =====
-- internal/identity/auth/memory_store.go: users and sessions. A method runs under the store's mutex;
-- one that changes the store returns the new one where it succeeds, and on an error the store stays
-- as it was. The map of sessions is iterated in the order of the store.
use Prim.Native.String.{compare}
use text.Mathlib.Text.{is_lt}
use control_center_developme.Prelude.Text.{trim_space}
use control_center_developme.Prelude.Sort.{sort}
use control_center_developme.Prelude.{
  ℕ, ◌+◌, String, Bool, true, false, not, ◌&&◌, ◌||◌, Option, none, some, List, [], ◌∷◌, ltb, ◌==◌,
  ◌=s◌, if◌then◌else◌, Result, ok, err, ◌>>=◌, ◌>>◌, require, reject, Store, find, put,
}
use control_center_developme.Auth.Types.{
  AuthError, not_found, conflict, User, Session, activity_at, is_none,
}

pub record MemoryStore : Type 0 where
  pub users_by_id : Store User
  pub user_id_by_name : Store String
  pub sessions_by_digest : Store Session

-- NewMemoryStore
abbrev pub new_memory_store : MemoryStore
new_memory_store = record { users_by_id = []; user_id_by_name = []; sessions_by_digest = [] }

-- The value of a key, or ErrNotFound.
unfoldable pub found {ℓ} : {V : Type ℓ} → Option V → Result AuthError V
found none = err not_found
found (some v) = ok v

abbrev pub is_some {ℓ} : {V : Type ℓ} → Option V → Bool
is_some none = false
is_some (some v) = true

-- MemoryStore.FindUserByID
unfoldable pub find_user_by_id : String → MemoryStore → Result AuthError User
unfolding found
find_user_by_id id s = found (find id s.users_by_id)

-- `s.usersByID[id]`, of a user that the index names
abbrev pub blank_user : User
blank_user = record {
  id = "";
  username = "";
  display_name = "";
  password_hash = "";
  enabled = false;
  password_change_required = false;
  created_at = 0;
  password_changed_at = 0;
  last_login_at = none;
}

abbrev pub or_blank : Option User → User
or_blank none = blank_user
or_blank (some user) = user

-- MemoryStore.SetLastLogin
unfoldable pub set_last_login : String → ℕ → MemoryStore → Result AuthError MemoryStore
unfolding found
set_last_login id at s = do
  user ← found (find id s.users_by_id)
  ok (record s { users_by_id = put id (record user { last_login_at = some at }) s.users_by_id })

-- The loops that revoke the sessions of a user.
unfoldable pub revoke_user_sessions : String → ℕ → Store Session → Store Session
revoke_user_sessions id at [] = []
revoke_user_sessions id at ((digest, session) ∷ rest) =
    let tail : Store Session = revoke_user_sessions id at rest in
    if session.user_id =s id && is_none session.revoked_at
    then (digest, record session { revoked_at = some at }) ∷ tail
    else (digest, session) ∷ tail

-- `count` in RevokeSessionsForUser
unfoldable pub count_unrevoked : String → Store Session → ℕ
count_unrevoked id [] = 0
count_unrevoked id ((digest, session) ∷ rest) =
    let tail : ℕ = count_unrevoked id rest in
    if session.user_id =s id && is_none session.revoked_at then tail + 1 else tail

-- MemoryStore.ChangePasswordAndRevokeSessions
unfoldable pub change_password_and_revoke :
    String → String → String → ℕ → MemoryStore → Result AuthError MemoryStore
unfolding found
change_password_and_revoke id expected_hash new_hash at s = do
  user ← found (find id s.users_by_id)
  require (user.password_hash =s expected_hash) conflict
  ok (record s {
    users_by_id =
        put id
          (record user {
            password_hash = new_hash;
            password_change_required = false;
            password_changed_at = at;
          })
          s.users_by_id;
    sessions_by_digest = revoke_user_sessions id at s.sessions_by_digest;
  })

-- CreateSession, the activity of the session that it stores
abbrev pub with_activity : Session → Session
with_activity session = record session { last_activity_at = activity_at session }

abbrev pub has_hash : String → Option User → Bool
has_hash expected none = false
has_hash expected (some user) = user.password_hash =s expected

-- MemoryStore.CreateSession
unfoldable pub create_session : Session → String → MemoryStore → Result AuthError MemoryStore
create_session session expected_password_hash s = do
  reject (session.id =s "" || session.token_digest =s "" || session.user_id =s "") conflict
  require (has_hash expected_password_hash (find session.user_id s.users_by_id)) conflict
  reject (is_some (find session.token_digest s.sessions_by_digest)) conflict
  reject
      (ltb (activity_at session) session.created_at || ltb session.expires_at (activity_at session))
      conflict
  ok (record s {
    sessions_by_digest = put session.token_digest (with_activity session) s.sessions_by_digest;
  })

-- MemoryStore.FindSessionByDigest
unfoldable pub find_session_by_digest : String → MemoryStore → Result AuthError Session
unfolding found
find_session_by_digest digest s = found (find digest s.sessions_by_digest)

-- The loop of FindSessionForUserByID
unfoldable pub find_session_loop : String → String → Store Session → Result AuthError Session
find_session_loop user_id session_id [] = err not_found
find_session_loop user_id session_id ((digest, session) ∷ rest) =
    let later : Result AuthError Session = find_session_loop user_id session_id rest in
    if session.user_id =s user_id && session.id =s session_id then ok session else later

-- MemoryStore.FindSessionForUserByID
unfoldable pub find_session_for_user : String → String → MemoryStore → Result AuthError Session
unfolding find_session_loop
find_session_for_user user_id session_id s =
    find_session_loop user_id session_id s.sessions_by_digest

-- The loop of ListActiveSessionsForUser
unfoldable pub active_sessions : String → ℕ → Store Session → List Session
active_sessions user_id now [] = []
active_sessions user_id now ((digest, session) ∷ rest) =
    let tail : List Session = active_sessions user_id now rest in
    if not (session.user_id =s user_id)
      || not (is_none session.revoked_at)
      || not (ltb now session.expires_at)
    then tail
    else session ∷ tail

-- The order of ListActiveSessionsForUser: the newest first
unfoldable pub newer_session : Session → Session → Bool
newer_session a b =
    if a.created_at == b.created_at
    then is_lt (compare a.id b.id)
    else ltb b.created_at a.created_at

-- MemoryStore.ListActiveSessionsForUser
unfoldable pub list_active_sessions : String → ℕ → MemoryStore → List Session
unfolding active_sessions newer_session sort
list_active_sessions user_id now s =
    sort newer_session (active_sessions user_id now s.sessions_by_digest)

-- MemoryStore.TouchSessionByDigest
unfoldable pub touch_session : String → ℕ → MemoryStore → Result AuthError MemoryStore
unfolding found
touch_session digest at s = do
  session ← found (find digest s.sessions_by_digest)
  require (is_none session.revoked_at) not_found
  require (ltb at session.expires_at) not_found
  ok (
      if ltb (activity_at session) at
      then record s {
        sessions_by_digest =
            put digest (record session { last_activity_at = at }) s.sessions_by_digest;
      }
      else s)

-- MemoryStore.RevokeSessionByDigest
unfoldable pub revoke_by_digest : String → ℕ → MemoryStore → Result AuthError MemoryStore
unfolding found
revoke_by_digest digest at s = do
  session ← found (find digest s.sessions_by_digest)
  ok (
      if is_none session.revoked_at
      then record s {
        sessions_by_digest =
            put digest (record session { revoked_at = some at }) s.sessions_by_digest;
      }
      else s)

-- The loop of RevokeSessionForUserByID
unfoldable pub revoke_loop : String → String → ℕ → Store Session → Result AuthError (Store Session)
revoke_loop user_id session_id at [] = err not_found
revoke_loop user_id session_id at ((digest, session) ∷ rest) =
    let later : Result AuthError (Store Session) = revoke_loop user_id session_id at rest in
    if not (session.user_id =s user_id)
      || not (session.id =s session_id)
      || not (is_none session.revoked_at)
      || not (ltb at session.expires_at)
    then (later >>= λ tail. ok ((digest, session) ∷ tail))
    else ok ((digest, record session { revoked_at = some at }) ∷ rest)

-- MemoryStore.RevokeSessionForUserByID
unfoldable pub revoke_for_user : String → String → ℕ → MemoryStore → Result AuthError MemoryStore
unfolding revoke_loop
revoke_for_user user_id session_id at s = do
  sessions ← revoke_loop user_id session_id at s.sessions_by_digest
  ok (record s { sessions_by_digest = sessions })

-- MemoryStore.RevokeSessionsForUser
unfoldable pub revoke_sessions_for_user : String → ℕ → MemoryStore → MemoryStore × ℕ
unfolding revoke_user_sessions count_unrevoked
revoke_sessions_for_user user_id at s = (
  record s { sessions_by_digest = revoke_user_sessions user_id at s.sessions_by_digest },
  count_unrevoked user_id s.sessions_by_digest,
)

-- What the store takes from `strings.ToLower`.
module _ (to_lower : String → String) where
  -- normalizeUsername
  abbrev pub normalize_username : String → String
  normalize_username value = to_lower (trim_space value)

  -- MemoryStore.CreateUser
  unfoldable pub create_user : User → MemoryStore → Result AuthError MemoryStore
  create_user user s = do
    reject (user.id =s "" || normalize_username user.username =s "" || user.password_hash =s "")
        conflict
    reject (is_some (find user.id s.users_by_id)) conflict
    reject (is_some (find (normalize_username user.username) s.user_id_by_name)) conflict
    ok (record s {
      users_by_id =
          put user.id (record user { username = normalize_username user.username }) s.users_by_id;
      user_id_by_name = put (normalize_username user.username) user.id s.user_id_by_name;
    })

  -- MemoryStore.FindUserByUsername
  unfoldable pub find_user_by_username : String → MemoryStore → Result AuthError User
  unfolding found
  find_user_by_username username s = do
    id ← found (find (normalize_username username) s.user_id_by_name)
    ok (or_blank (find id s.users_by_id))
