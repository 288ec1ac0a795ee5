-- ===== src/Auth/Dropping.antt =====
-- For internal/identity/auth/memory_store.go: the loop of RevokeSessionForUserByID as an action on
-- the digests of tokens.
use control_center_developme.Prelude.{
  ℕ, String, ◌≡◌, refl, sym, ◌∙◌, ◌⊎◌, inl, inr, true, false, not, ◌||◌, ltb, some, [], ◌∷◌, arith,
  ◌=s◌, =s_iff, =s_refl, Bool-cases, ok, ok-injective, >>=-eq-ok, Store, find,
}
use control_center_developme.Auth.Types.{Session, is_none}
use control_center_developme.Auth.Store.{revoke_loop}
use control_center_developme.Auth.Tokens.{
  live, Action, keep, drop, perform, dropped, status_in, Performs,
}

-- Nothing, or the end of a session that is live for the user.
abbrev pub DropsOf : String → Store Session → Action → Type 0
DropsOf user before action =
    (action ≡ keep)
    ⊎ ((digest : String) × (action ≡ drop digest) × (status_in digest before ≡ live user))

cons-keep :
    (key : String) (session : Session) (m m' : Store Session)
    → Performs keep m m'
    → Performs keep ((key, session) ∷ m) ((key, session) ∷ m')
unfolding perform find
cons-keep key session m m' h digest = elim (Bool-cases (key =s digest)) [
  | inl e ↦ rw e refl
  | inr e ↦ rw e (h digest)
]

cons-drop_other :
    (key at : String) (session : Session) (m m' : Store Session)
    → (key =s at) ≡ false
    → Performs (drop at) m m'
    → Performs (drop at) ((key, session) ∷ m) ((key, session) ∷ m')
unfolding perform dropped find
cons-drop_other key at session m m' other h digest = elim (Bool-cases (key =s digest)) [
  | inl e ↦
      let apart : (at =s digest) ≡ false =
        ground (arith, =s_iff key digest, =s_iff key at, =s_iff at digest) in
      rw (e, apart) refl
  | inr e ↦ rw e (h digest)
]

cons-drop_same :
    (key at : String) (session : Session) (m m' : Store Session)
    → (key =s at) ≡ true
    → Performs (drop at) m m'
    → Performs keep ((key, session) ∷ m) ((key, session) ∷ m')
unfolding perform dropped find
cons-drop_same key at session m m' same h digest = elim (Bool-cases (key =s digest)) [
  | inl e ↦ rw e refl
  | inr e ↦
      let apart : (at =s digest) ≡ false =
        ground (arith, =s_iff key digest, =s_iff key at, =s_iff at digest) in
      rw e (h digest ∙ rw apart refl)
]

head-drop :
    (key : String) (session : Session) (at : ℕ) (m : Store Session)
    → Performs (drop key) ((key, session) ∷ m) ((key, record session { revoked_at = some at }) ∷ m)
unfolding perform dropped find
head-drop key session at m digest = elim (Bool-cases (key =s digest)) [
  | inl e ↦ rw e refl
  | inr e ↦ rw e refl
]

-- The action of the loop on a list, from that on its tail.
cons-drops :
    (user key : String) (session : Session) (m m' : Store Session) (action : Action)
    → DropsOf user m action
    → Performs action m m'
    → (outer : Action) × DropsOf user ((key, session) ∷ m) outer
      × Performs outer ((key, session) ∷ m) ((key, session) ∷ m')
unfolding find
cons-drops user key session m m' action (inl e) h =
    (keep, inl refl, cons-keep key session m m' (rw (sym e) h))
cons-drops user key session m m' action (inr (at, e, is_live)) h =
    let h' : Performs (drop at) m m' = rw (sym e) h in
    elim (Bool-cases (key =s at)) [
      | inl same ↦ (keep, inl refl, cons-drop_same key at session m m' same h')
      | inr other ↦
          (drop at, inr (at, refl, rw other is_live), cons-drop_other key at session m m' other h')
    ]

pub revoke_loop-Performs :
    (user id : String) (at : ℕ) (m m' : Store Session)
    → revoke_loop user id at m ≡ ok m'
    → (action : Action) × DropsOf user m action × Performs action m m'
unfolding revoke_loop
revoke_loop-Performs user id at [] m' h = absurd (cc h)
revoke_loop-Performs user id at ((key, session) ∷ m) m' h =
    elim (Bool-cases (
      not (session.user_id =s user)
      || not (session.id =s id)
      || not (is_none session.revoked_at)
      || not (ltb at session.expires_at))) [
        | inl skip ↦
            let (tail, later, e) = >>=-eq-ok (revoke_loop user id at m) _ m' (rw skip at h) in
            let (action, drops, performs) = revoke_loop-Performs user id at m tail later in
            rw (sym (ok-injective _ _ e)) (cons-drops user key session m tail action drops performs)
        | inr take ↦
            let done = ok-injective _ _ (rw take at h) in
            let free : is_none session.revoked_at ≡ true = ground arith in
            let owned : session.user_id ≡ user = ground (arith, =s_iff session.user_id user) in
            (
              drop key,
              inr (key, refl, unfold find in rw (=s_refl key, free, owned) refl),
              rw (sym done) (head-drop key session at m),
            )
      ]
