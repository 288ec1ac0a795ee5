-- ===== src/Sync/Examples.antt =====
-- Two revisions of one record, delivered in both orders.
use control_center_developme.Prelude.Text.{any_rune, is_control, is_space, trim_space}
use control_center_developme.Prelude.{ℕ, ◌≡◌, refl, inl, inr, true, [], ◌∷◌, ok}
use control_center_developme.Sync.Records.{
  choose, desired_state, global_authority, Record, reconcile, validate_canonical_token,
  validate_record,
}
use control_center_developme.Sync.Reconcile.{SameObject}
use control_center_developme.Sync.Delivery.{deliver, deliver-converges, IsIssued}

abbrev revision : ℕ → Record
revision n = record {
  site_id = "site-1";
  resource_id = "node-1";
  kind = desired_state;
  authority = global_authority;
  generation = n;
  resource_version = "v";
  payload_hash = "h";
}

revision_1_valid : validate_record (revision 1) ≡ ok tt
unfolding validate_record validate_canonical_token any_rune is_space is_control trim_space
revision_1_valid = refl

revision_2_valid : validate_record (revision 2) ≡ ok tt
unfolding validate_record validate_canonical_token any_rune is_space is_control trim_space
revision_2_valid = refl

same : (n : ℕ) → SameObject (revision 0) (revision n)
same n = record { site = refl; resource = refl; kind = refl; authority = refl }

revision_1-IsIssued : IsIssued revision (revision 1)
revision_1-IsIssued = record { issued = refl; valid = revision_1_valid; object = same 1 }

revision_2-IsIssued : IsIssued revision (revision 2)
revision_2-IsIssued = record { issued = refl; valid = revision_2_valid; object = same 2 }

second_accepted : reconcile (revision 1) (revision 2) ≡ ok (revision 2, true)
unfolding reconcile choose validate_record validate_canonical_token any_rune is_space is_control
    trim_space
second_accepted = refl

deliver-converges_example :
    deliver (revision 1) (revision 2 ∷ []) ≡ deliver (revision 2) (revision 1 ∷ [])
deliver-converges_example =
    deliver-converges revision (revision 1) (revision 2) (revision 2 ∷ []) (revision 1 ∷ [])
      (revision_1-IsIssued, (revision_2-IsIssued, tt))
      (revision_2-IsIssued, (revision_1-IsIssued, tt)) (inr (inl refl), (inl refl, tt))
      (inr (inl refl), (inl refl, tt))
