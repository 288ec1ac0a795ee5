-- ===== src/Auth/Permits.antt =====
-- For internal/identity/auth: what each call may do to the tokens' digests; logins, the check of a
-- token, and logouts.
use control_center_developme.Prelude.{
  ℕ, String, ◌≡◌, refl, ◌⊎◌, inl, inr, some, Bool-cases, Option-cases, ok, Result-cases, find,
}
use control_center_developme.Audit.Types.{Logger}
use control_center_developme.Login.Protection.{blocked}
use control_center_developme.Auth.Types.{User, LoginInput}
use control_center_developme.Auth.Store.{
  normalize_username, find_user_by_username, touch_session, find_session_by_digest, found,
}
use control_center_developme.Auth.Tokens.{Action, keep, drop, drop_all}
use control_center_developme.Auth.Dropping.{DropsOf}
use control_center_developme.Auth.Setup.{AuthPlatform, Service, ServiceState, Random}
use control_center_developme.Auth.Service.{
  enabled_user, validated_token_digest, login_denied, login_open, login, authentic,
  authenticate_digest, authenticate,
}
use control_center_developme.Auth.Revoking.{logout_digest, logout}
use control_center_developme.Auth.Calls.{
  Call, call_login, call_authenticate, call_change_password, call_revoke_session, call_revoke_all,
  call_logout,
}
use control_center_developme.Auth.Refine.{kept, touch_session-Performs, revoke_by_digest-Performs}
use control_center_developme.Auth.Promise.{
  Does, Does-keep, audited-state, LoginPermits, login_open-Does,
}

module _ {Log : Type 0} (platform : AuthPlatform) (logger : Logger Log) (service : Service) where
  -- An enabled user of the store.
  abbrev pub IsEnabled : String → User → ServiceState Log → Type 0
  IsEnabled id user s = enabled_user platform logger service id s.store ≡ ok user

  -- What a call may do to the digests.
  unfoldable pub Permits : Call → ServiceState Log → Action → Type 0
  Permits (call_login input now random) s action =
      (action ≡ keep)
      ⊎ ((user : User) × (find_user_by_username platform.keys.to_lower
              (normalize_username platform.keys.to_lower input.username) s.store
            ≡ ok user)
          × LoginPermits platform logger service random.token user.id s.store action)
  Permits (call_change_password input hashed now) s action =
      (action ≡ keep)
      ⊎ ((user : User) × IsEnabled input.user_id user s × (action ≡ drop_all user.id))
  Permits (call_revoke_all input now) s action =
      (action ≡ keep)
      ⊎ ((user : User) × IsEnabled input.user_id user s × (action ≡ drop_all user.id))
  Permits (call_revoke_session input now) s action =
      (action ≡ keep)
      ⊎ ((user : User) × IsEnabled input.user_id user s
          × DropsOf user.id s.store.sessions_by_digest action)
  Permits (call_logout token source now) s action =
      (action ≡ keep)
      ⊎ ((digest : String) × (validated_token_digest platform logger service token ≡ some digest)
          × (action ≡ drop digest))
  Permits _ s action = action ≡ keep

  abbrev pub CallDoes : Call → ServiceState Log → ServiceState Log → Type 0
  CallDoes call s t = Does platform logger service (Permits call s) s t

  pub login-Does :
      (input : LoginInput) (now : ℕ) (random : Random) (s : ServiceState Log)
      → CallDoes
          (call_login input now random)
          s
          (login platform logger service input now random s).0
  unfolding login Permits login_denied login_open
  login-Does input now random s =
      let username : String = normalize_username platform.keys.to_lower input.username in
      let asked = blocked platform.keys username input.source_ip now s.protector in
      let seen : ServiceState Log = record s { protector = asked.0 } in
      elim (Bool-cases asked.1) [
        | inl h ↦ rw h (keep, inl refl, kept s.store.sessions_by_digest _ refl)
        | inr h ↦
            elim (Result-cases (find_user_by_username platform.keys.to_lower username s.store)) [
              | inr (e, missing) ↦
                  rw (h, missing) (keep, inl refl, kept s.store.sessions_by_digest _ refl)
              | inl (user, there) ↦
                  let (action, permitted, performs) =
                    login_open-Does platform logger service username input now random user seen in
                  rw (h, there) (action, inr (user, refl, permitted), performs)
            ]
      ]

  pub authenticate-Does :
      (token : String) (now : ℕ) (s : ServiceState Log)
      → CallDoes
          (call_authenticate token now)
          s
          (authenticate platform logger service token now s).0
  unfolding authenticate authenticate_digest Permits
  authenticate-Does token now s =
      elim (Option-cases (validated_token_digest platform logger service token)) [
        | inl e ↦ rw (e, authenticate) (Does-keep platform logger service _ s s refl refl)
        | inr (digest, e) ↦
            elim (Result-cases (authentic platform logger service digest now s.store)) [
              | inr (r, f) ↦
                  rw (e, f, authenticate, authenticate_digest)
                    (Does-keep platform logger service _ s s refl refl)
              | inl (p, f) ↦ elim (Result-cases (touch_session digest now s.store)) [
                | inr (r, g) ↦
                    rw (e, f, g, authenticate, authenticate_digest)
                      (Does-keep platform logger service _ s s refl refl)
                | inl (next, g) ↦
                    rw (e, f, g, authenticate, authenticate_digest)
                      (keep, refl, touch_session-Performs digest now s.store next g)
              ]
            ]
      ]

  logout_digest-Does :
      (digest source : String) (now : ℕ) (s : ServiceState Log)
      → Does platform logger service
          (λ action. (action ≡ keep) ⊎ (action ≡ drop digest))
          s
          (logout_digest platform logger service digest source now s).0
  unfolding logout_digest find_session_by_digest found
  logout_digest-Does digest source now s =
      elim (Option-cases (find digest s.store.sessions_by_digest)) [
        | inl f ↦ rw (f, logout_digest) (Does-keep platform logger service _ s s (inl refl) refl)
        | inr (session, f) ↦
            rw (f, logout_digest, audited-state)
              (drop digest, inr refl, revoke_by_digest-Performs digest now s.store session f)
      ]

  pub logout-Does :
      (token source : String) (now : ℕ) (s : ServiceState Log)
      → CallDoes
          (call_logout token source now)
          s
          (logout platform logger service token source now s).0
  unfolding logout Permits
  logout-Does token source now s =
      elim (Option-cases (validated_token_digest platform logger service token)) [
        | inl e ↦ rw (e, logout) (Does-keep platform logger service _ s s (inl refl) refl)
        | inr (digest, e) ↦
            let (action, permitted, performs) = logout_digest-Does digest source now s in
            elim permitted [
              | inl same ↦ rw (e, logout) (action, inl same, performs)
              | inr gone ↦ rw (e, logout) (action, inr (digest, refl, gone), performs)
            ]
      ]
