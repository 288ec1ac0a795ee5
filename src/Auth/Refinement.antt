-- ===== src/Auth/Refinement.antt =====
-- For internal/identity/auth: every call of the service against the promise of the tokens' digests,
-- and tokens whose session has ended.
use control_center_developme.Prelude.{
  ℕ, String, ◌≡◌, refl, ◌∙◌, ap, inl, inr, some, ok, err, Result-cases, List, [], ◌∷◌, arith,
}
use control_center_developme.Audit.Types.{Logger}
use control_center_developme.Auth.Types.{User, Session, unauthenticated}
use control_center_developme.Auth.Store.{MemoryStore, find_session_by_digest, found}
use control_center_developme.Auth.Tokens.{
  spent, Action, keep, issue, drop, drop_all, perform, issued, dropped, dropped_all, status,
}
use control_center_developme.Auth.Setup.{AuthPlatform, Service, ServiceState}
use control_center_developme.Auth.Service.{
  validated_token_digest, authentic, authenticate_digest, authenticate,
}
use control_center_developme.Auth.Calls.{
  Call, call_create_user, call_login, call_authenticate, call_change_password, call_list_sessions,
  call_revoke_session, call_revoke_all, call_logout, call_policy, step, run,
}
use control_center_developme.Auth.Refine.{create_user-sessions, kept}
use control_center_developme.Auth.Permits.{Permits, login-Does, authenticate-Does, logout-Does}
use control_center_developme.Auth.Endings.{
  change_password-Does, list_sessions-Does, revoke_all-Does, revoke_session-Does,
  session_security_policy-Does,
}

perform-spent : (action : Action) (digest : String) → perform action digest spent ≡ spent
unfolding perform issued dropped dropped_all
perform-spent keep digest = refl
perform-spent (issue at user) digest = ground arith
perform-spent (drop at) digest = ground arith
perform-spent (drop_all user) digest = refl

module _ {Log : Type 0} (platform : AuthPlatform) (logger : Logger Log) (service : Service) where
  -- Every call of the service, whatever its result, does to the digests of tokens what one action
  -- does to their status (unused, live for a user, or spent), an action that the call permits: a
  -- login may issue the digest of the token that was drawn, if that is unused, to the user that its
  -- name finds, or spend it; a change of password and a revocation of all sessions may spend the
  -- digests that are live for the enabled user, a revocation one of them, a logout its own token's;
  -- the other calls, CreateUser among them, change no status.
  pub step-refines :
      (call : Call) (s : ServiceState Log)
      → (action : Action) × Permits platform logger service call s action
        × ((digest : String)
            → status digest (step platform logger service call s).store
              ≡ perform action digest (status digest s.store))
  unfolding step Permits
  step-refines (call_create_user user) s =
      (keep, refl, kept _ _ (create_user-sessions platform.keys.to_lower user s.store))
  step-refines (call_login input now random) s =
      login-Does platform logger service input now random s
  step-refines (call_authenticate token now) s =
      authenticate-Does platform logger service token now s
  step-refines (call_change_password input hashed now) s =
      change_password-Does platform logger service input hashed now s
  step-refines (call_list_sessions input now) s =
      list_sessions-Does platform logger service input now s
  step-refines (call_revoke_session input now) s =
      revoke_session-Does platform logger service input now s
  step-refines (call_revoke_all input now) s = revoke_all-Does platform logger service input now s
  step-refines (call_logout token source now) s =
      logout-Does platform logger service token source now s
  step-refines (call_policy input) s = session_security_policy-Does platform logger service input s

  pub run-spent :
      (digest : String) (calls : List Call) (s : ServiceState Log)
      → status digest s.store ≡ spent
      → status digest (run platform logger service calls s).store ≡ spent
  unfolding run
  run-spent digest [] s h = h
  run-spent digest (call ∷ calls) s h =
      let (action, permitted, performs) = step-refines call s in
      run-spent digest calls (step platform logger service call s)
        (performs digest ∙ ap (perform action digest) h ∙ perform-spent action digest)

  authentic-spent :
      (digest : String) (now : ℕ) (s : MemoryStore) {p : Session × User}
      → status digest s ≡ spent
      → authentic platform logger service digest now s ≡ ok p
      → ⊥
  unfolding authentic find_session_by_digest found
  authentic-spent digest now s h e = ground arith

  pub authenticate-spent :
      (token digest : String) (now : ℕ) (s : ServiceState Log)
      → validated_token_digest platform logger service token ≡ some digest
      → status digest s.store ≡ spent
      → (authenticate platform logger service token now s).1 ≡ err unauthenticated
  unfolding authenticate authenticate_digest
  authenticate-spent token digest now s valid h =
      elim (Result-cases (authentic platform logger service digest now s.store)) [
        | inl (p, e) ↦ absurd (authentic-spent digest now s.store h e)
        | inr (e, f) ↦ rw (valid, authenticate) (rw (f, authenticate_digest) refl)
      ]
