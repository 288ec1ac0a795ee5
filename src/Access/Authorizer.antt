-- ===== src/Access/Authorizer.antt =====
-- internal/identity/rbac/rbac.go: the authorizer. A method runs under its mutex; one that changes the
-- authorizer returns the new one where it succeeds, and on an error it stays as it was.
use Prim.Native.String.{compare}
use text.Mathlib.Text.{is_lt}
use control_center_developme.Prelude.Text.{trim_space}
use control_center_developme.Prelude.Sort.{sort}
use control_center_developme.Prelude.{
  String, Bool, true, false, not, ◌||◌, Option, none, some, List, [], ◌∷◌, ◌++◌, ◌=s◌,
  if◌then◌else◌, Result, ok, err, ◌>>=◌, ◌>>◌, reject, require, Store, find, put, keys,
}
use control_center_developme.Access.Scopes.{
  kind_text, Scope, is_blank, valid_scope, scope_contains, Role, Binding, EffectiveGrant,
}
use control_center_developme.Access.Builtin.{permission_all}

pub data AccessError : Type 0 where
  role_required empty_permission subject_required unknown_role context_done : AccessError

-- A set of permissions, `map[Permission]struct{}`
abbrev pub Permissions : Type 0
Permissions = Store (Unit {0})

pub record Authorizer : Type 0 where
  pub roles : Store Permissions
  pub bindings : List Binding

-- NewAuthorizer
abbrev pub new_authorizer : Authorizer
new_authorizer = record { roles = []; bindings = [] }

-- The loop of RegisterRole
unfoldable pub permission_set : List String → Permissions → Result AccessError Permissions
permission_set [] set = ok set
permission_set (permission ∷ rest) set =
    let later : Result AccessError Permissions = permission_set rest (put permission tt set) in
    if is_blank permission then err empty_permission else later

abbrev pub is_empty : List String → Bool
is_empty [] = true
is_empty (p ∷ ps) = false

-- Authorizer.RegisterRole
unfoldable pub register_role : Role → Authorizer → Result AccessError Authorizer
unfolding permission_set
register_role role a = do
  let name : String = trim_space role.name
  reject (name =s "" || is_empty role.permissions) role_required
  permissions ← permission_set role.permissions []
  ok (record a { roles = put name permissions a.roles })

abbrev pub is_known {ℓ} : {V : Type ℓ} → Option V → Bool
is_known none = false
is_known (some v) = true

-- Authorizer.Bind
unfoldable pub bind : Binding → Authorizer → Result AccessError Authorizer
bind binding a = do
  reject (is_blank binding.subject_id || not (valid_scope binding.scope)) subject_required
  require (is_known (find binding.role_name a.roles)) unknown_role
  ok (record a { bindings = a.bindings ++ (binding ∷ []) })

-- The permissions of a role include all, or the one that is asked for.
abbrev pub permits : String → Option Permissions → Bool
permits permission none = false
permits permission (some permissions) =
    is_known (find permission_all permissions) || is_known (find permission permissions)

-- The loop of Allowed
unfoldable pub allowed_loop : String → String → Scope → Store Permissions → List Binding → Bool
allowed_loop subject permission target roles [] = false
allowed_loop subject permission target roles (binding ∷ rest) =
    let later : Bool = allowed_loop subject permission target roles rest in
    if not (binding.subject_id =s subject) || not (scope_contains binding.scope target)
    then later
    else if permits permission (find binding.role_name roles)
    then true
    else later

-- Authorizer.Allowed
unfoldable pub allowed : String → String → Scope → Authorizer → Bool
unfolding allowed_loop
allowed subject permission target a =
    if is_blank subject || is_blank permission || not (valid_scope target)
    then false
    else allowed_loop subject permission target a.roles a.bindings

abbrev pub text_before : String → String → Bool
text_before a b = is_lt (compare a b)

-- The list of a set of permissions.
unfoldable pub permission_list : Permissions → List String
unfolding sort keys
permission_list permissions = sort text_before (keys permissions)

-- The loop of EffectiveGrants
unfoldable pub grants_loop : String → Store Permissions → List Binding → List EffectiveGrant
unfolding permission_list
grants_loop subject roles [] = []
grants_loop subject roles (binding ∷ rest) =
    let later : List EffectiveGrant = grants_loop subject roles rest in
    if not (binding.subject_id =s subject) then later else elim (find binding.role_name roles) [
      | none ↦ later
      | some permissions ↦
          record {
            role_name = binding.role_name;
            scope = binding.scope;
            permissions = permission_list permissions;
          }
          ∷ later
    ]

-- The order of EffectiveGrants
unfoldable pub grant_before : EffectiveGrant → EffectiveGrant → Bool
unfolding kind_text
grant_before a b =
    if not (kind_text a.scope.kind =s kind_text b.scope.kind)
    then text_before (kind_text a.scope.kind) (kind_text b.scope.kind)
    else if not (a.scope.id =s b.scope.id)
    then text_before a.scope.id b.scope.id
    else text_before a.role_name b.role_name

-- Authorizer.EffectiveGrants, under a context that is done or not
unfoldable pub effective_grants :
    Bool → String → Authorizer → Result AccessError (List EffectiveGrant)
unfolding grants_loop sort grant_before
effective_grants done subject a = do
  reject (is_blank subject) subject_required
  reject done context_done
  ok (sort grant_before (grants_loop subject a.roles a.bindings))
