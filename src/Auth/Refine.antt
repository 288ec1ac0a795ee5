-- ===== src/Auth/Refine.antt =====
-- For internal/identity/auth: the service's calls as actions on the digests of tokens.
use control_center_developme.Prelude.{
  ℕ, String, ◌≡◌, refl, sym, inl, inr, false, none, some, arith, Bool-cases, Option-cases, ok,
  ok-injective, >>=-eq-ok, Store, find, put, ◌=s◌, =s_iff,
}
use control_center_developme.Auth.Types.{User, Session, is_none}
use control_center_developme.Auth.Store.{
  MemoryStore, create_user, create_session, touch_session, revoke_by_digest, revoke_for_user,
  change_password_and_revoke, set_last_login, with_activity, found, revoke_user_sessions,
  revoke_loop,
}
use control_center_developme.Auth.Tokens.{
  Action, keep, drop, drop_all, perform, dropped, Performs, put-keeps, put-drops,
  revoke_user_sessions-Performs,
}
use control_center_developme.Auth.Dropping.{DropsOf, revoke_loop-Performs}
use control_center_developme.Auth.Service.{after}

-- What an operation of the store makes of the sessions, where it succeeds.
pub kept : (before behind : Store Session) → behind ≡ before → Performs keep before behind
unfolding perform
kept before behind same digest = rw same refl

pub create_user-sessions :
    (to_lower : String → String) (user : User) (s : MemoryStore)
    → (after s (create_user to_lower user s)).sessions_by_digest ≡ s.sessions_by_digest
unfolding create_user
create_user-sessions to_lower user s = ground arith

pub set_last_login-sessions :
    (id : String) (at : ℕ) (s : MemoryStore)
    → (after s (set_last_login id at s)).sessions_by_digest ≡ s.sessions_by_digest
unfolding set_last_login found
set_last_login-sessions id at s = ground arith

pub create_session-parts :
    (session : Session) (hash : String) (s next : MemoryStore)
    → create_session session hash s ≡ ok next
    → (find session.token_digest s.sessions_by_digest ≡ none)
      × (next ≡ record s {
        sessions_by_digest = put session.token_digest (with_activity session) s.sessions_by_digest;
      })
unfolding create_session
create_session-parts session hash s next h = ground arith

pub touch_session-Performs :
    (digest : String) (at : ℕ) (s next : MemoryStore)
    → touch_session digest at s ≡ ok next
    → Performs keep s.sessions_by_digest next.sessions_by_digest
unfolding touch_session found
touch_session-Performs digest at s next h = elim (Option-cases (find digest s.sessions_by_digest)) [
  | inl e ↦ absurd (cc (rw e at h))
  | inr (session, e) ↦ ground (
    arith,
    kept s.sessions_by_digest s.sessions_by_digest refl,
    put-keeps digest session (record session { last_activity_at = at }) s.sessions_by_digest e refl
        refl,
  )
]

drop-spent :
    (digest : String) (session : Session) (m : Store Session)
    → find digest m ≡ some session
    → is_none session.revoked_at ≡ false
    → Performs (drop digest) m m
unfolding perform dropped
drop-spent digest session m e done other = elim (Bool-cases (digest =s other)) [
  | inl h ↦ rw (h, sym ((=s_iff digest other).0 h), e, done) refl
  | inr h ↦ rw h refl
]

pub revoke_by_digest-Performs :
    (digest : String) (at : ℕ) (s : MemoryStore) (session : Session)
    → find digest s.sessions_by_digest ≡ some session
    → Performs
        (drop digest)
        s.sessions_by_digest
        (after s (revoke_by_digest digest at s)).sessions_by_digest
unfolding revoke_by_digest found
revoke_by_digest-Performs digest at s session e = elim (Bool-cases (is_none session.revoked_at)) [
  | inl free ↦
      rw (e, free)
        (put-drops digest (record session { revoked_at = some at }) at s.sessions_by_digest refl)
  | inr done ↦ rw (e, done) (drop-spent digest session s.sessions_by_digest e done)
]

pub revoke_for_user-Performs :
    (user id : String) (at : ℕ) (s next : MemoryStore)
    → revoke_for_user user id at s ≡ ok next
    → (action : Action) × DropsOf user s.sessions_by_digest action
      × Performs action s.sessions_by_digest next.sessions_by_digest
unfolding revoke_for_user
revoke_for_user-Performs user id at s next h =
    let (sessions, loop, e) = >>=-eq-ok (revoke_loop user id at s.sessions_by_digest) _ next h in
    rw (sym (ok-injective _ _ e))
      (revoke_loop-Performs user id at s.sessions_by_digest sessions loop)

pub change_password-Performs :
    (id old new : String) (at : ℕ) (s next : MemoryStore)
    → change_password_and_revoke id old new at s ≡ ok next
    → Performs (drop_all id) s.sessions_by_digest next.sessions_by_digest
unfolding change_password_and_revoke found
change_password-Performs id old new at s next h =
    let e : next.sessions_by_digest ≡ revoke_user_sessions id at s.sessions_by_digest =
      ground arith in
    rw e (revoke_user_sessions-Performs id at s.sessions_by_digest)
