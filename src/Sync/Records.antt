-- ===== src/Sync/Records.antt =====
-- internal/sitesync/state.go: records and their reconciliation. An error is its sentinel, so the
-- order in which the source's map of fields is validated does not show.
use control_center_developme.Prelude.Text.{any_rune, is_control, is_space, trim_space}
use control_center_developme.Prelude.{
  ℕ, String, Bool, true, false, not, ◌&&◌, ◌||◌, ltb, ◌==◌, ◌=s◌, if◌then◌else◌, Result, ok, err,
  ◌>>◌, require, reject,
}

pub data SyncError : Type 0 where
  invalid_record wrong_authority stale_generation state_conflict : SyncError

-- `unknown_kind` and `unknown_authority` are texts that are no constants.
pub data StateKind : Type 0 where
  desired_state actual_state : StateKind
  unknown_kind : String → StateKind

pub data Authority : Type 0 where
  global_authority site_authority : Authority
  unknown_authority : String → Authority

pub record Record : Type 0 where
  pub site_id : String
  pub resource_id : String
  pub kind : StateKind
  pub authority : Authority
  pub generation : ℕ  -- uint64
  pub resource_version : String
  pub payload_hash : String

abbrev pub same_kind : StateKind → StateKind → Bool
same_kind desired_state desired_state = true
same_kind actual_state actual_state = true
same_kind (unknown_kind k) (unknown_kind l) = k =s l
same_kind _ _ = false

abbrev pub same_authority : Authority → Authority → Bool
same_authority global_authority global_authority = true
same_authority site_authority site_authority = true
same_authority (unknown_authority a) (unknown_authority b) = a =s b
same_authority _ _ = false

-- validateCanonicalToken
unfoldable pub validate_canonical_token : String → Result SyncError (Unit {0})
validate_canonical_token value = do
  reject (value =s "" || not (trim_space value =s value)) invalid_record
  reject (any_rune (λ c. is_space c || is_control c) value) invalid_record

-- `switch r.Kind`
unfoldable pub check_authority : StateKind → Authority → Result SyncError (Unit {0})
check_authority desired_state authority =
    require (same_authority authority global_authority) wrong_authority
check_authority actual_state authority =
    require (same_authority authority site_authority) wrong_authority
check_authority (unknown_kind k) authority = err invalid_record

-- Record.Validate
unfoldable pub validate_record : Record → Result SyncError (Unit {0})
unfolding check_authority
validate_record r = do
  validate_canonical_token r.site_id
  validate_canonical_token r.resource_id
  validate_canonical_token r.resource_version
  validate_canonical_token r.payload_hash
  reject (r.generation == 0) invalid_record
  check_authority r.kind r.authority

-- Record.Direction
unfoldable pub direction : Record → Result SyncError String
direction r = do
  validate_record r
  ok (if same_kind r.kind desired_state then "global-to-site" else "site-to-global")

-- Reconcile, behind its guards
unfoldable pub choose : Record → Record → Result SyncError (Record × Bool)
choose current incoming =
    if ltb incoming.generation current.generation
    then err stale_generation
    else if incoming.generation == current.generation
    then (if incoming.resource_version =s current.resource_version
          && incoming.payload_hash =s current.payload_hash
        then ok (current, false)
        else err state_conflict)
    else ok (incoming, true)

-- Reconcile
unfoldable pub reconcile : Record → Record → Result SyncError (Record × Bool)
unfolding choose
reconcile current incoming = do
  validate_record current
  validate_record incoming
  reject
      (not (current.site_id =s incoming.site_id)
        || not (current.resource_id =s incoming.resource_id)
        || not (same_kind current.kind incoming.kind))
      invalid_record
  require (same_authority current.authority incoming.authority) wrong_authority
  choose current incoming
