-- ===== src/Access/Scopes.antt =====
-- internal/identity/rbac/rbac.go: scopes, roles, bindings and grants.
use control_center_developme.Prelude.Text.{trim_space}
use control_center_developme.Prelude.{String, Bool, true, false, not, ◌&&◌, ◌||◌, List, ◌=s◌}

-- `other_kind` is any other text.
pub data ScopeKind : Type 0 where
  global tenant site resource : ScopeKind
  other_kind : String → ScopeKind

-- The text of a kind.
unfoldable pub kind_text : ScopeKind → String
kind_text global = "global"
kind_text tenant = "tenant"
kind_text site = "site"
kind_text resource = "resource"
kind_text (other_kind text) = text

pub record Scope : Type 0 where
  pub kind : ScopeKind
  pub id : String

-- GlobalScope
abbrev pub global_scope : Scope
global_scope = record { kind = global; id = "" }

abbrev pub is_blank : String → Bool
is_blank value = trim_space value =s ""

abbrev pub valid_for : ScopeKind → String → Bool
valid_for global id = id =s ""
valid_for tenant id = not (is_blank id)
valid_for site id = not (is_blank id)
valid_for resource id = not (is_blank id)
valid_for (other_kind text) id = false

-- Scope.Valid
unfoldable pub valid_scope : Scope → Bool
valid_scope scope = valid_for scope.kind scope.id

abbrev pub is_global : ScopeKind → Bool
is_global global = true
is_global _ = false

-- scopeContains
unfoldable pub scope_contains : Scope → Scope → Bool
unfolding kind_text
scope_contains binding target =
    (is_global binding.kind && binding.id =s "")
    || (kind_text binding.kind =s kind_text target.kind && binding.id =s target.id)

pub record Role : Type 0 where
  pub name : String
  pub description : String
  pub permissions : List String

pub record Binding : Type 0 where
  pub subject_id : String
  pub role_name : String
  pub scope : Scope

pub record EffectiveGrant : Type 0 where
  pub role_name : String
  pub scope : Scope
  pub permissions : List String
