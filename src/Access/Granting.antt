-- ===== src/Access/Granting.antt =====
-- For internal/identity/rbac/rbac.go: the grants that EffectiveGrants shows, against what Allowed
-- decides.
use control_center_developme.Prelude.Sort.{sort, insert_sorted}
use control_center_developme.Prelude.{
  String, ◌≡◌, inl, inr, refl, sym, ap, ◌∙◌, Bool, true, false, ◌&&◌, ◌||◌, some, List, [], ◌∷◌,
  any, arith, ◌=s◌, Option-cases, Store, find, keys, ok,
}
use control_center_developme.Access.Scopes.{
  Scope, is_blank, valid_scope, scope_contains, Binding, EffectiveGrant,
}
use control_center_developme.Access.Builtin.{permission_all}
use control_center_developme.Access.Authorizer.{
  Authorizer, Permissions, is_known, permits, allowed_loop, allowed, text_before, permission_list,
  grants_loop, grant_before, effective_grants,
}

-- The permissions that a grant shows include all, or the one that is asked for.
abbrev pub shows : String → List String → Bool
shows permission permissions =
    any (λ p. p =s permission_all) permissions || any (λ p. p =s permission) permissions

-- A grant shows a permission at a target.
abbrev pub grant_shows : String → Scope → EffectiveGrant → Bool
grant_shows permission target grant =
    scope_contains grant.scope target && shows permission grant.permissions

module _ {ℓ} {A : Type ℓ} (less : A → A → Bool) (test : A → Bool) where
  any-insert_sorted :
      (x : A) (ys : List A) → any test (insert_sorted less x ys) ≡ (test x || any test ys)
  unfolding any insert_sorted
  any-insert_sorted x [] = refl
  any-insert_sorted x (y ∷ ys) = ground (arith, any-insert_sorted x ys)

  any-sort : (xs : List A) → any test (sort less xs) ≡ any test xs
  unfolding any sort
  any-sort [] = refl
  any-sort (x ∷ xs) = any-insert_sorted x (sort less xs) ∙ ap (λ b. test x || b) (any-sort xs)

any-keys : (k : String) (m : Permissions) → any (λ p. p =s k) (keys m) ≡ is_known (find k m)
unfolding any keys find
any-keys k [] = refl
any-keys k ((j, v) ∷ m) = ground (arith, any-keys k m)

any-permission_list :
    (k : String) (m : Permissions) → any (λ p. p =s k) (permission_list m) ≡ is_known (find k m)
unfolding permission_list
any-permission_list k m = any-sort text_before (λ p. p =s k) (keys m) ∙ any-keys k m

shows-permission_list :
    (permission : String) (m : Permissions)
    → shows permission (permission_list m) ≡ permits permission (some m)
shows-permission_list permission m =
    ap (λ b. b || any (λ p. p =s permission) (permission_list m))
      (any-permission_list permission_all m)
    ∙ ap (λ b. is_known (find permission_all m) || b) (any-permission_list permission m)

grants_loop-allowed_loop :
    (subject permission : String) (target : Scope) (roles : Store Permissions)
    (bindings : List Binding)
    → any (grant_shows permission target) (grants_loop subject roles bindings)
      ≡ allowed_loop subject permission target roles bindings
unfolding any grants_loop allowed_loop
grants_loop-allowed_loop subject permission target roles [] = refl
grants_loop-allowed_loop subject permission target roles (binding ∷ rest) =
    let later = grants_loop-allowed_loop subject permission target roles rest in
    elim (Option-cases (find binding.role_name roles)) [
      | inl e ↦ rw e (ground (arith, later))
      | inr (m, e) ↦ rw e (ground (arith, later, shows-permission_list permission m))
    ]

-- For a permission that is not blank and a valid target, the grants that EffectiveGrants lists for
-- a subject show the permission at the target exactly if Allowed allows it.
pub effective_grants-allowed :
    (subject permission : String) (target : Scope) (a : Authorizer) (grants : List EffectiveGrant)
    → effective_grants false subject a ≡ ok grants
    → is_blank permission ≡ false
    → valid_scope target ≡ true
    → any (grant_shows permission target) grants ≡ allowed subject permission target a
unfolding effective_grants allowed
effective_grants-allowed subject permission target a grants h named valid =
    let subject_named : is_blank subject ≡ false = ground arith in
    let shown : sort grant_before (grants_loop subject a.roles a.bindings) ≡ grants =
      ground arith in
    rw (sym shown, subject_named, named, valid)
      (any-sort grant_before (grant_shows permission target)
          (grants_loop subject a.roles a.bindings)
        ∙ grants_loop-allowed_loop subject permission target a.roles a.bindings)
