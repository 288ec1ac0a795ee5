-- ===== src/Access/Deciding.antt =====
-- For internal/identity/rbac/rbac.go: what Allowed decides, against the bindings and the grants.
use control_center_developme.Prelude.Text.{trim_space}
use control_center_developme.Prelude.{
  String, ◌≡◌, ◌≢◌, ◌⊎◌, ◌↔◌, inl, inr, refl, sym, true, false, Option, none, some, List, [], ◌∷◌,
  arith, ◌=s◌, =s_iff, =s_refl, Bool-cases, Store, find,
}
use control_center_developme.Prelude.Lists.{OneOf}
use control_center_developme.Access.Scopes.{
  ScopeKind, global, tenant, site, resource, kind_text, Scope, is_global, is_blank, valid_scope,
  scope_contains, Binding,
}
use control_center_developme.Access.Authorizer.{
  Authorizer, Permissions, is_known, permits, allowed_loop, allowed,
}

-- A scope that covers a target: the global one, or the one of the same kind and id.
abbrev pub Covers : Scope → Scope → Type 0
Covers scope target =
    ((scope.kind ≡ global) × (scope.id ≡ ""))
    ⊎ ((kind_text scope.kind ≡ kind_text target.kind) × (scope.id ≡ target.id))

-- A role that is registered, with all permissions or with the one that is asked for.
pub record Permits (permission : String) (role : Option Permissions) : Type 0 where
  pub permissions : Permissions
  pub registered : role ≡ some permissions
  pub has : (find "*" permissions ≡ some tt) ⊎ (find permission permissions ≡ some tt)

-- A target that can be asked for: the global one has no id, any other kind of the four has one.
abbrev pub IsTarget : Scope → Type 0
IsTarget target =
    ((target.kind ≡ global) × (target.id ≡ ""))
    ⊎ ((target.kind ≡ tenant ⊎ target.kind ≡ site ⊎ target.kind ≡ resource)
        × (trim_space target.id ≢ ""))

is_global-eq : (kind : ScopeKind) → is_global kind ≡ true → kind ≡ global
is_global-eq kind h = ground arith

scope_contains_iff :
    (scope target : Scope) → (scope_contains scope target ≡ true) ↔ Covers scope target
unfolding scope_contains
scope_contains_iff scope target = (
  λ h. ground (
    arith,
    is_global-eq scope.kind,
    =s_iff scope.id "",
    =s_iff scope.id target.id,
    =s_iff (kind_text scope.kind) (kind_text target.kind),
  ),
  λ h. elim h [
    | inl (k, i) ↦ rw (k, i) refl
    | inr (k, i) ↦ ground (
      arith,
      (=s_iff (kind_text scope.kind) (kind_text target.kind)).1 k,
      (=s_iff scope.id target.id).1 i,
    )
  ],
)

is_known-eq : (o : Option (Unit {0})) → (is_known o ≡ true) ↔ (o ≡ some tt)
is_known-eq none = (λ h. absurd (cc h), λ h. absurd (cc h))
is_known-eq (some tt) = (λ h. refl, λ h. refl)

permits_iff :
    (permission : String) (role : Option Permissions)
    → (permits permission role ≡ true) ↔ Permits permission role
permits_iff permission none = (λ h. absurd (cc h), λ p. absurd (cc (p.registered)))
permits_iff permission (some permissions) =
    let all = is_known-eq (find "*" permissions) in
    let one = is_known-eq (find permission permissions) in
    (
      λ h. record { permissions = permissions; registered = refl; has = ground (arith, all, one) },
      λ p.
          let same : permissions ≡ p.permissions = cc (p.registered) in
          elim p.has [
            | inl e ↦ rw (all.1 (rw (sym same) at e)) refl
            | inr e ↦ rw (one.1 (rw (sym same) at e)) (ground arith)
          ],
    )

is_blank-eq : (text : String) → (is_blank text ≡ false) ↔ (trim_space text ≢ "")
is_blank-eq text = (
  λ h p. absurd (cc (h, (=s_iff (trim_space text) "").1 p)),
  λ n. elim (Bool-cases (is_blank text)) [
    | inl e ↦ absurd (n ((=s_iff (trim_space text) "").0 e))
    | inr e ↦ e
  ],
)

valid_scope_iff : (target : Scope) → (valid_scope target ≡ true) ↔ IsTarget target
unfolding valid_scope
valid_scope_iff target =
    let blank = is_blank-eq target.id in
    (
      λ h. ground (arith, blank, =s_iff target.id ""),
      λ h. ground (arith, blank, =s_iff target.id ""),
    )

-- A binding that gives the permission at the target.
pub record Gives (subject permission : String) (target : Scope) (roles : Store Permissions)
    (binding : Binding) : Type 0 where
  pub bound : binding.subject_id ≡ subject
  pub covers : Covers binding.scope target
  pub role : Permits permission (find binding.role_name roles)

allowed_loop-Gives :
    (subject permission : String) (target : Scope) (roles : Store Permissions)
    (bindings : List Binding)
    → allowed_loop subject permission target roles bindings ≡ true
    → OneOf (Gives subject permission target roles) bindings
unfolding allowed_loop
allowed_loop-Gives subject permission target roles [] h = absurd (cc h)
allowed_loop-Gives subject permission target roles (binding ∷ rest) h =
    elim (Bool-cases (binding.subject_id =s subject)) [
      | inr e ↦ inr (allowed_loop-Gives subject permission target roles rest (ground arith))
      | inl e ↦ elim (Bool-cases (scope_contains binding.scope target)) [
        | inr f ↦ inr (allowed_loop-Gives subject permission target roles rest (ground arith))
        | inl f ↦ elim (Bool-cases (permits permission (find binding.role_name roles))) [
          | inr g ↦ inr (allowed_loop-Gives subject permission target roles rest (ground arith))
          | inl g ↦ inl (record {
            bound = (=s_iff binding.subject_id subject).0 e;
            covers = (scope_contains_iff binding.scope target).0 f;
            role = (permits_iff permission (find binding.role_name roles)).0 g;
          })
        ]
      ]
    ]

Gives-allowed_loop :
    (subject permission : String) (target : Scope) (roles : Store Permissions)
    (bindings : List Binding)
    → OneOf (Gives subject permission target roles) bindings
    → allowed_loop subject permission target roles bindings ≡ true
unfolding allowed_loop
Gives-allowed_loop subject permission target roles [] h = absurd h
Gives-allowed_loop subject permission target roles (binding ∷ rest) (inl g) =
    let covers = (scope_contains_iff binding.scope target).1 g.covers in
    let role = (permits_iff permission (find binding.role_name roles)).1 g.role in
    rw (covers, role, g.bound, =s_refl) refl
Gives-allowed_loop subject permission target roles (binding ∷ rest) (inr h) =
    let later = Gives-allowed_loop subject permission target roles rest h in ground arith

-- A subject is allowed a permission at a target exactly if subject and permission are not blank,
-- the target is the global scope without an id or a tenant, site or resource with one, and a
-- binding of the subject, whose scope is the global one or has the kind and the id of the target,
-- names a role that is registered with the permission `*` or with that one.
pub allowed_iff :
    (subject permission : String) (target : Scope) (a : Authorizer)
    → (allowed subject permission target a ≡ true) ↔ (
        (trim_space subject ≢ "")
        × (trim_space permission ≢ "")
        × IsTarget target
        × OneOf (Gives subject permission target a.roles) a.bindings)
unfolding allowed
allowed_iff subject permission target a = (
  λ h. (
    (is_blank-eq subject).0 (ground arith),
    (is_blank-eq permission).0 (ground arith),
    (valid_scope_iff target).0 (ground arith),
    allowed_loop-Gives subject permission target a.roles a.bindings (ground arith),
  ),
  λ (s, p, v, g).
      rw
        (
          (is_blank-eq subject).1 s,
          (is_blank-eq permission).1 p,
          (valid_scope_iff target).1 v,
          Gives-allowed_loop subject permission target a.roles a.bindings g,
        )
        refl,
)
