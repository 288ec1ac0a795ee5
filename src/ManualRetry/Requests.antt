-- ===== src/ManualRetry/Requests.antt =====
-- internal/orchestration/job/manual_retry.go: the request of a manual retry, its validation and its
-- fingerprint, and the lineage that a retry leaves.
use control_center_developme.Prelude.Hex.{runes}
use control_center_developme.Prelude.Text.{trim_space, text_append, byte_length}
use control_center_developme.Prelude.{
  ℕ, String, Bool, true, false, not, ◌&&◌, ◌||◌, Option, none, some, List, [], ◌∷◌, length, ltb,
  leb, ◌==◌, ◌=s◌, Result, ◌>>◌, require, reject,
}
use control_center_developme.Job.Types.{Error}
use control_center_developme.Job.Repository.{Platform}

-- The errors. `job_error` is one of the job repository, `canonical` names the field of which a
-- canonical value is required, and `failure` is the text of an error that has no sentinel.
pub data RetryError : Type 0 where
  source_not_failed source_already_retried admission_conflict lineage_not_found : RetryError
  retry_missing retry_id_exists invalid_history canonical failure : String → RetryError
  job_error : Error → RetryError

pub record ManualRetryRequest : Type 0 where
  pub source_job_id : String
  pub expected_source_version : ℕ
  pub retry_job_id : String
  pub retry_idempotency_key : String
  pub reviewed_admission_id : String
  pub revalidation_admission_id : String
  pub revision_id : String
  pub revision_digest : String
  pub policy_id : String
  pub policy_digest : String
  pub retry_history_digest : String
  pub approval_evidence_digest : String
  pub requested_at : ℕ

pub record ManualRetryLineage : Type 0 where
  pub root_job_id : String
  pub source_job_id : String
  pub source_job_version : ℕ
  pub retry_job_id : String
  pub retry_idempotency_key : String
  pub reviewed_admission_id : String
  pub revalidation_admission_id : String
  pub revision_id : String
  pub revision_digest : String
  pub policy_id : String
  pub policy_digest : String
  pub retry_history_digest : String
  pub approval_evidence_digest : String
  pub requested_at : ℕ

abbrev pub max_manual_retry_identifier_length : ℕ
max_manual_retry_identifier_length = 255

-- validateManualRetryIdentifier
unfoldable pub validate_retry_identifier : String → String → Result RetryError (Unit {0})
unfolding trim_space byte_length
validate_retry_identifier name value =
    reject
      (trim_space value =s ""
        || not (trim_space value =s value)
        || ltb max_manual_retry_identifier_length (byte_length value))
      (canonical name)

-- What stands behind a prefix, if it is there.
unfoldable pub strip_prefix : List ℕ → List ℕ → Option (List ℕ)
strip_prefix [] cs = some cs
strip_prefix (p ∷ ps) [] = none
strip_prefix (p ∷ ps) (c ∷ cs) =
    let rest = strip_prefix ps cs in elim (p == c) [ true ↦ rest | false ↦ none ]

unfoldable pub all_lower_hex : List ℕ → Bool
all_lower_hex [] = true
all_lower_hex (c ∷ cs) =
    ((leb 0x30 c && leb c 0x39) || (leb 0x61 c && leb c 0x66)) && all_lower_hex cs

abbrev pub is_digest_body : Option (List ℕ) → Bool
is_digest_body none = false
is_digest_body (some cs) = length cs == 64 && all_lower_hex cs

-- validManualRetryDigest. A digest is in ASCII, so its characters are its bytes.
unfoldable pub valid_retry_digest : String → Bool
unfolding runes strip_prefix all_lower_hex
valid_retry_digest value = is_digest_body (strip_prefix (runes "sha256:") (runes value))

abbrev pub require_digest : String → String → Result RetryError (Unit {0})
require_digest name value = require (valid_retry_digest value) (canonical name)

-- ValidateManualRetryRequest
unfoldable pub validate_retry_request : ManualRetryRequest → Result RetryError (Unit {0})
unfolding validate_retry_identifier valid_retry_digest
validate_retry_request request = do
  validate_retry_identifier "source job id" request.source_job_id
  validate_retry_identifier "retry job id" request.retry_job_id
  validate_retry_identifier "retry idempotency key" request.retry_idempotency_key
  validate_retry_identifier "revision id" request.revision_id
  validate_retry_identifier "policy id" request.policy_id
  reject (request.expected_source_version == 0) (failure "expected source job version is required")
  reject (request.source_job_id =s request.retry_job_id)
      (failure "retry job must have a fresh job id")
  require_digest "reviewed admission id" request.reviewed_admission_id
  require_digest "revalidation admission id" request.revalidation_admission_id
  require_digest "revision digest" request.revision_digest
  require_digest "policy digest" request.policy_digest
  require_digest "retry history digest" request.retry_history_digest
  reject
      (not (request.approval_evidence_digest =s "")
        && not (valid_retry_digest request.approval_evidence_digest))
      (canonical "approval evidence digest")
  reject (request.requested_at == 0) (failure "manual retry request time is required")

-- The values, each with a NUL behind it.
unfoldable pub terminated : List String → String
terminated [] = ""
terminated (value ∷ rest) = text_append value (text_append "\0" (terminated rest))

-- ManualRetryRequestFingerprint, of a valid request
unfoldable pub retry_fingerprint : Platform → ManualRetryRequest → String
unfolding terminated
retry_fingerprint platform request = platform.sha256_hex (
    terminated (
      request.source_job_id
      ∷ platform.decimal request.expected_source_version
      ∷ request.retry_job_id
      ∷ request.retry_idempotency_key
      ∷ request.reviewed_admission_id
      ∷ request.revision_id
      ∷ request.revision_digest
      ∷ request.policy_id
      ∷ request.policy_digest
      ∷ request.retry_history_digest
      ∷ request.approval_evidence_digest
      ∷ []))
