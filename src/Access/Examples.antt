-- ===== src/Access/Examples.antt =====
-- For internal/identity/rbac: the built-in viewer role, bound to one user at one site.
use control_center_developme.Prelude.Text.{trim_space, trim_left, trim_right, is_space}
use control_center_developme.Prelude.Sort.{sort, insert_sorted}
use control_center_developme.Prelude.{
  ◌≡◌, refl, true, false, List, [], ◌∷◌, inl, inr, ok, find, keys, any,
}
use control_center_developme.Access.Scopes.{Scope, site, valid_scope, Binding, EffectiveGrant}
use control_center_developme.Access.Builtin.{permission_overview_read, permission_users_write}
use control_center_developme.Access.Authorizer.{
  Authorizer, allowed, effective_grants, permission_list, grants_loop,
}
use control_center_developme.Access.Deciding.{allowed_iff}
use control_center_developme.Access.Granting.{effective_grants-allowed, grant_shows}

abbrev site_1 : Scope
site_1 = record { kind = site; id = "site-1" }

abbrev bound : Binding
bound = record { subject_id = "u1"; role_name = "viewer"; scope = site_1 }

abbrev authorizer : Authorizer
authorizer = record {
  roles = ("viewer", (permission_overview_read, tt) ∷ []) ∷ [];
  bindings = bound ∷ [];
}

allowed_iff_example : allowed "u1" permission_overview_read site_1 authorizer ≡ true
allowed_iff_example = (allowed_iff "u1" permission_overview_read site_1 authorizer).1 (
  unfold trim_space trim_left trim_right is_space in λ p. absurd (cc (p)),
  unfold trim_space trim_left trim_right is_space in λ p. absurd (cc (p)),
  inr (inr (inl refl), unfold trim_space trim_left trim_right is_space in λ p. absurd (cc (p))),
  inl (record {
    bound = refl;
    covers = inr (refl, refl);
    role = record {
      permissions = (permission_overview_read, tt) ∷ [];
      registered = unfold find in refl;
      has = inr (unfold find in refl);
    };
  }),
)

abbrev grants_1 : List EffectiveGrant
grants_1 =
    record { role_name = "viewer"; scope = site_1; permissions = permission_overview_read ∷ [] }
    ∷ []

shown : effective_grants false "u1" authorizer ≡ ok grants_1
unfolding effective_grants grants_loop permission_list sort insert_sorted keys find trim_space
    trim_left trim_right is_space
shown = refl

effective_grants-allowed_example :
    any (grant_shows permission_users_write site_1) grants_1
    ≡ allowed "u1" permission_users_write site_1 authorizer
effective_grants-allowed_example =
    effective_grants-allowed "u1" permission_users_write site_1 authorizer grants_1 shown
      (unfold trim_space trim_left trim_right is_space in refl)
      (unfold valid_scope trim_space trim_left trim_right is_space in refl)
