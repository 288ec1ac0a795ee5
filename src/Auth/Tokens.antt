-- ===== src/Auth/Tokens.antt =====
-- For internal/identity/auth/memory_store.go: what the store promises of a token's digest. A digest
-- is unused, live for a user, or spent; the operations of the store are actions on this view.
use control_center_developme.Prelude.{
  ℕ, String, ◌≡◌, refl, sym, inl, inr, Bool, true, false, Option, none, some, [], ◌∷◌, arith, ◌=s◌,
  =s_iff, if◌then◌else◌, Bool-cases, Store, find, put, find-put,
}
use control_center_developme.Auth.Types.{Session, is_none}
use control_center_developme.Auth.Store.{MemoryStore, revoke_user_sessions}

pub data TokenStatus : Type 0 where
  unused spent : TokenStatus
  live : String → TokenStatus

pub data Action : Type 0 where
  keep : Action
  issue : String → String → Action
  drop : String → Action
  drop_all : String → Action

unfoldable pub issued : Bool → String → TokenStatus → TokenStatus
issued true user unused = live user
issued true user spent = spent
issued true user (live other) = live other
issued false user status = status

unfoldable pub dropped : Bool → TokenStatus → TokenStatus
dropped true status = spent
dropped false status = status

unfoldable pub dropped_all : String → TokenStatus → TokenStatus
dropped_all user unused = unused
dropped_all user spent = spent
dropped_all user (live other) = if other =s user then spent else live other

-- What an action makes of the status of a digest.
unfoldable pub perform : Action → String → TokenStatus → TokenStatus
unfolding issued dropped dropped_all
perform keep digest status = status
perform (issue at user) digest status = issued (at =s digest) user status
perform (drop at) digest status = dropped (at =s digest) status
perform (drop_all user) digest status = dropped_all user status

abbrev pub session_status : Option Session → TokenStatus
session_status none = unused
session_status (some session) = if is_none session.revoked_at then live session.user_id else spent

abbrev pub status_in : String → Store Session → TokenStatus
status_in digest sessions = session_status (find digest sessions)

-- The status of a digest in a store.
abbrev pub status : String → MemoryStore → TokenStatus
status digest s = status_in digest s.sessions_by_digest

-- The sessions behind an operation are what an action makes of those before it.
abbrev pub Performs : Action → Store Session → Store Session → Type 0
Performs action before behind =
    (digest : String) → status_in digest behind ≡ perform action digest (status_in digest before)

pub put-keeps :
    (key : String) (old new : Session) (m : Store Session)
    → find key m ≡ some old
    → new.user_id ≡ old.user_id
    → new.revoked_at ≡ old.revoked_at
    → Performs keep m (put key new m)
unfolding perform
put-keeps key old new m e same kept digest = elim (Bool-cases (key =s digest)) [
  | inl h ↦ rw (find-put, h, sym ((=s_iff key digest).0 h), e, same, kept) refl
  | inr h ↦ rw (find-put, h) refl
]

pub put-issues :
    (key : String) (new : Session) (m : Store Session)
    → find key m ≡ none
    → new.revoked_at ≡ none
    → Performs (issue key new.user_id) m (put key new m)
unfolding perform issued
put-issues key new m e fresh digest = elim (Bool-cases (key =s digest)) [
  | inl h ↦ rw (find-put, h, sym ((=s_iff key digest).0 h), e, fresh) refl
  | inr h ↦ rw (find-put, h) refl
]

pub put-drops :
    (key : String) (new : Session) (at : ℕ) (m : Store Session)
    → new.revoked_at ≡ some at
    → Performs (drop key) m (put key new m)
unfolding perform dropped
put-drops key new at m revoked digest = elim (Bool-cases (key =s digest)) [
  | inl h ↦ rw (find-put, h, revoked) refl
  | inr h ↦ rw (find-put, h) refl
]

-- A drop forgets what the digest was issued for.
pub drop-issue :
    (key user digest : String) (status : TokenStatus)
    → perform (drop key) digest (perform (issue key user) digest status)
      ≡ perform (drop key) digest status
unfolding perform dropped issued
drop-issue key user digest status = elim (Bool-cases (key =s digest)) [
  | inl h ↦ rw h refl
  | inr h ↦ rw h refl
]

-- The sessions of a user are dropped, and no others.
pub revoke_user_sessions-Performs :
    (id : String) (at : ℕ) (m : Store Session)
    → Performs (drop_all id) m (revoke_user_sessions id at m)
unfolding perform dropped_all revoke_user_sessions find
revoke_user_sessions-Performs id at [] digest = refl
revoke_user_sessions-Performs id at ((key, session) ∷ m) digest =
    ground (arith, revoke_user_sessions-Performs id at m digest)
