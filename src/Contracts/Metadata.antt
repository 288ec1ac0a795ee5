-- ===== src/Contracts/Metadata.antt =====
-- internal/corecontracts/metadata.go: the envelope of a distributed object, the guard of an update
-- and the rules for a successor. An error is the sentinel that the code wraps; the text of its
-- message is left out. A time is a number, 0 being the zero time.
use control_center_developme.Contracts.Identifiers.{valid_identifier, valid_opaque_version}
use control_center_developme.Prelude.{
  ℕ, ◌+◌, String, Bool, false, not, ◌&&◌, ◌||◌, Option, none, some, ltb, ◌==◌, ◌=s◌, if◌then◌else◌,
  Result, ◌>>◌, reject, require, is_ok,
}

pub data MetadataError : Type 0 where
  invalid_metadata precondition_required invalid_precondition precondition_failed
        invalid_transition :
      MetadataError

pub record ObjectMetadata : Type 0 where
  pub object_id : String
  pub scope_id : String
  pub owner_scope : String
  pub generation : ℕ  -- uint64
  pub resource_version : String
  pub created_at : ℕ
  pub updated_at : ℕ

-- ObjectMetadata.Validate
unfoldable pub validate_metadata : ObjectMetadata → Result MetadataError (Unit {0})
validate_metadata m = do
  require (valid_identifier m.object_id) invalid_metadata
  require (valid_identifier m.scope_id) invalid_metadata
  require (valid_identifier m.owner_scope) invalid_metadata
  reject (m.generation == 0) invalid_metadata
  require (valid_opaque_version m.resource_version) invalid_metadata
  reject (m.created_at == 0 || m.updated_at == 0) invalid_metadata
  reject (ltb m.updated_at m.created_at) invalid_metadata

pub record ObjectPrecondition : Type 0 where
  pub object_id : String
  pub resource_version : String
  pub generation : Option ℕ

-- `p.Generation != nil && test(*p.Generation)`
abbrev pub given : Option ℕ → (ℕ → Bool) → Bool
given none test = false
given (some g) test = test g

-- ObjectPrecondition.ValidateAgainst
unfoldable pub validate_against :
    ObjectPrecondition → ObjectMetadata → Result MetadataError (Unit {0})
validate_against p current = do
  reject (p.object_id =s "" || p.resource_version =s "") precondition_required
  require (valid_identifier p.object_id) invalid_precondition
  require (valid_opaque_version p.resource_version) invalid_precondition
  reject (given p.generation (λ g. g == 0)) invalid_precondition
  validate_metadata current
  require (p.object_id =s current.object_id) precondition_failed
  require (p.resource_version =s current.resource_version) precondition_failed
  reject (given p.generation (λ g. not (g == current.generation))) precondition_failed

abbrev pub max_uint64 : ℕ
max_uint64 = 18446744073709551615

-- ValidateSuccessor
unfoldable pub validate_successor :
    ObjectMetadata → ObjectMetadata → Bool → Result MetadataError (Unit {0})
validate_successor current next desired_changed = do
  require (is_ok (validate_metadata current)) invalid_transition
  require (is_ok (validate_metadata next)) invalid_transition
  require (next.object_id =s current.object_id) invalid_transition
  require (next.created_at == current.created_at) invalid_transition
  reject (ltb next.updated_at current.updated_at) invalid_transition
  reject (next.resource_version =s current.resource_version) invalid_transition
  reject
      (not desired_changed
        && (not (next.scope_id =s current.scope_id)
            || not (next.owner_scope =s current.owner_scope)))
      invalid_transition
  reject (desired_changed && current.generation == max_uint64) invalid_transition
  require
      (next.generation == (if desired_changed then current.generation + 1 else current.generation))
      invalid_transition
