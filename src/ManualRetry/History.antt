-- ===== src/ManualRetry/History.antt =====
-- internal/orchestration/job/manual_retry_history.go: the evidence of a chain of retries. The reader
-- of lineages is a parameter; the walk along the chain runs on fuel.
use control_center_developme.Prelude.{
  ℕ, zero, suc, String, Bool, true, false, not, ◌||◌, Option, none, some, List, [], ◌∷◌, length,
  any, ltb, ◌==◌, ◌=s◌, if◌then◌else◌, Result, ok, err, ◌>>=◌, ◌>>◌, require, reject, Store, find,
  put, size,
}
use control_center_developme.Job.Types.{Job}
use control_center_developme.ManualRetry.Requests.{
  RetryError, invalid_history, failure, lineage_not_found, ManualRetryLineage,
  validate_retry_identifier,
}
use control_center_developme.ManualRetry.Repository.{is_there}

-- ManualRetryLineageReader
pub record LineageReader : Type 0 where
  pub by_retry_job : String → Result RetryError ManualRetryLineage
  pub listing : String → Result RetryError (List ManualRetryLineage)

-- ManualRetryHistoryEvidence, less its contract version
pub record HistoryEvidence : Type 0 where
  pub root_job_id : String
  pub source_job_id : String
  pub source_job_version : ℕ
  pub used_manual_retries : ℕ
  pub source_already_retried : Bool
  pub digest : String
  pub observed_at : ℕ

abbrev pub max_manual_retry_history_entries : ℕ
max_manual_retry_history_entries = 64

-- BuildManualRetryHistoryEvidence, the root
unfoldable pub history_root :
    String → Result RetryError ManualRetryLineage → Result RetryError String
history_root id (ok parent) = ok parent.root_job_id
history_root id (err lineage_not_found) = ok id
history_root id (err e) = err e

abbrev pub incomplete : String → ManualRetryLineage → Bool
incomplete root item =
    not (item.root_job_id =s root)
    || item.source_job_id =s ""
    || item.retry_job_id =s ""
    || item.source_job_version == 0
    || item.requested_at == 0

-- BuildManualRetryHistoryEvidence, the loop that fills `bySource`
unfoldable pub index_lineage :
    String
    → List ManualRetryLineage
    → Store ManualRetryLineage
    → Result RetryError (Store ManualRetryLineage)
index_lineage root [] m = ok m
index_lineage root (item ∷ rest) m =
    let later : Result RetryError (Store ManualRetryLineage) =
      index_lineage root rest (put item.source_job_id item m) in
    if incomplete root item
    then err (invalid_history "incomplete retry lineage entry")
    else if is_there (find item.source_job_id m)
    then err (invalid_history "retry lineage forks")
    else later

abbrev pub seen : String → List String → Bool
seen cursor visited = any (λ v. v =s cursor) visited

abbrev pub followed :
    ManualRetryLineage
    → Option (Result RetryError (List ManualRetryLineage))
    → Option (Result RetryError (List ManualRetryLineage))
followed item none = none
followed item (some (err e)) = some (err e)
followed item (some (ok entries)) = some (ok (item ∷ entries))

-- BuildManualRetryHistoryEvidence, the walk from a job: `none` if the fuel runs out
unfoldable pub walk :
    ℕ
    → Store ManualRetryLineage
    → List String
    → String
    → Option (Result RetryError (List ManualRetryLineage))
walk zero m visited cursor = none
walk (suc fuel) m visited cursor = elim (seen cursor visited) [
  | true ↦ some (err (invalid_history "retry lineage cycle detected"))
  | false ↦ elim (find cursor m) [
    | none ↦ some (ok [])
    | some item ↦ followed item (walk fuel m (cursor ∷ visited) item.retry_job_id)
  ]
]

abbrev pub settled :
    Option (Result RetryError (List ManualRetryLineage))
    → Result RetryError (List ManualRetryLineage)
settled none = err (failure "unfinished walk")
settled (some r) = r

-- BuildManualRetryHistoryEvidence, the entries of the chain from the root
unfoldable pub chain_entries :
    String
    → List ManualRetryLineage
    → Store ManualRetryLineage
    → Result RetryError (List ManualRetryLineage)
unfolding walk
chain_entries root lineage m = do
  entries ← settled (walk (suc (size m)) m [] root)
  require (length entries == length lineage)
      (invalid_history "retry lineage contains disconnected entries")
  ok entries

-- BuildManualRetryHistoryEvidence, the checks of the source
unfoldable pub check_source : Job → ℕ → Result RetryError (Unit {0})
unfolding validate_retry_identifier
check_source source observed_at = do
  validate_retry_identifier "source job id" source.id
  reject (source.version == 0) (invalid_history "positive source Job version is required")
  reject (observed_at == 0 || source.updated_at == 0 || ltb observed_at source.updated_at)
      (invalid_history "fresh history observation is required")

-- BuildManualRetryHistoryEvidence, the lineage of the root
unfoldable pub bounded_lineage :
    LineageReader → String → Result RetryError (List ManualRetryLineage)
unfolding validate_retry_identifier
bounded_lineage reader root = do
  validate_retry_identifier "root job id" root
  lineage ← reader.listing root
  reject (ltb max_manual_retry_history_entries (length lineage))
      (invalid_history "retry history exceeds bounded evidence size")
  ok lineage

-- What the evidence takes from `crypto/sha256` with `encoding/json`: the digest of a root and its
-- entries, with the prefix.
module _ (history_digest : String → List ManualRetryLineage → String) where
  -- BuildManualRetryHistoryEvidence
  unfoldable pub build_history : LineageReader → Job → ℕ → Result RetryError HistoryEvidence
  unfolding check_source history_root bounded_lineage index_lineage chain_entries
  build_history reader source observed_at = do
    check_source source observed_at
    root ← history_root source.id (reader.by_retry_job source.id)
    lineage ← bounded_lineage reader root
    by_source ← index_lineage root lineage []
    entries ← chain_entries root lineage by_source
    ok (record {
      root_job_id = root;
      source_job_id = source.id;
      source_job_version = source.version;
      used_manual_retries = length entries;
      source_already_retried = is_there (find source.id by_source);
      digest = history_digest root entries;
      observed_at = observed_at;
    })
