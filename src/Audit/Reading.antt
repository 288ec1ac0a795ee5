-- ===== src/Audit/Reading.antt =====
-- internal/identity/audit/audit.go: queries and MemoryLog.Read. A limit or a cursor may be negative.
use control_center_developme.Prelude.Text.{trim_space, byte_length}
use control_center_developme.Prelude.Ints.{ℤ, pos, negsuc}
use control_center_developme.Prelude.{
  ℕ, zero, suc, String, Bool, not, ◌&&◌, ◌||◌, List, [], ◌∷◌, ◌++◌, length, ltb, leb, ◌==◌, ◌=s◌,
  if◌then◌else◌, Result, ok, err, ◌>>=◌, ◌>>◌, reject,
}
use control_center_developme.Audit.Types.{Event}
use control_center_developme.Audit.Log.{
  AuditError, context_done, limit_range, cursor_negative, action_too_long, outcome_too_long,
  identity_too_long, AuditPlatform, redact,
}

abbrev pub default_read_limit : ℕ
default_read_limit = 50

abbrev pub max_read_limit : ℕ
max_read_limit = 100

pub record Query : Type 0 where
  pub limit : ℤ
  pub before_sequence_id : ℤ
  pub action : String
  pub outcome : String
  pub actor_id : String
  pub subject_id : String

pub record Entry : Type 0 where
  pub sequence_id : ℕ
  pub event : Event

pub record Page : Type 0 where
  pub entries : List Entry
  pub has_more : Bool

-- A query that is normalized
pub record Filter : Type 0 where
  pub limit : ℕ
  pub before_sequence_id : ℕ
  pub action : String
  pub outcome : String
  pub actor_id : String
  pub subject_id : String

-- The limit of NormalizeQuery
abbrev pub normal_limit : ℤ → Result AuditError ℕ
normal_limit (negsuc n) = err limit_range
normal_limit (pos n) =
    let limit : ℕ = if n == 0 then default_read_limit else n in
    if ltb max_read_limit limit then err limit_range else ok limit

abbrev pub normal_cursor : ℤ → Result AuditError ℕ
normal_cursor (negsuc n) = err cursor_negative
normal_cursor (pos n) = ok n

-- NormalizeQuery
unfoldable pub normalize_query : Query → Result AuditError Filter
unfolding trim_space byte_length
normalize_query query = do
  limit ← normal_limit query.limit
  before ← normal_cursor query.before_sequence_id
  let action : String = trim_space query.action
  let outcome : String = trim_space query.outcome
  let actor_id : String = trim_space query.actor_id
  let subject_id : String = trim_space query.subject_id
  reject (ltb 192 (byte_length action)) action_too_long
  reject (ltb 32 (byte_length outcome)) outcome_too_long
  reject (ltb 128 (byte_length actor_id) || ltb 256 (byte_length subject_id)) identity_too_long
  ok (record {
    limit = limit;
    before_sequence_id = before;
    action = action;
    outcome = outcome;
    actor_id = actor_id;
    subject_id = subject_id;
  })

-- queryMatches
unfoldable pub query_matches : Event → Filter → Bool
query_matches event query =
    (query.action =s "" || event.action =s query.action)
    && (query.outcome =s "" || event.outcome =s query.outcome)
    && (query.actor_id =s "" || event.actor_id =s query.actor_id)
    && (query.subject_id =s "" || event.subject_id =s query.subject_id)

-- The tests of the loop of Read, on the event with this number
abbrev pub selected : Filter → ℕ → Event → Bool
selected query sequence_id event =
    not (ltb 0 query.before_sequence_id && leb query.before_sequence_id sequence_id)
    && query_matches event query

-- `entries[:query.Limit]`
unfoldable pub take {ℓ} : {A : Type ℓ} → ℕ → List A → List A
take n [] = []
take zero (x ∷ xs) = []
take (suc n) (x ∷ xs) = x ∷ take n xs

-- The records, the newest first
unfoldable pub newest_first : List Event → List Event
newest_first [] = []
newest_first (event ∷ rest) = newest_first rest ++ (event ∷ [])

module _ (platform : AuditPlatform) where
  abbrev pub entry_of : ℕ → Event → Entry
  entry_of sequence_id event = record {
    sequence_id = sequence_id;
    event = record event { details = redact platform event.details };
  }

  -- The loop of Read, with room for so many entries more. An event's number is that of the records
  -- that are not newer.
  unfoldable pub read_loop : Filter → ℕ → List Event → List Entry
  unfolding query_matches
  read_loop query zero records = []
  read_loop query (suc room) [] = []
  read_loop query (suc room) (event ∷ older) =
      let sequence_id : ℕ = length (event ∷ older) in
      let taken : List Entry = read_loop query room older in
      let skipped : List Entry = read_loop query (suc room) older in
      if selected query sequence_id event then entry_of sequence_id event ∷ taken else skipped

  -- MemoryLog.Read
  unfoldable pub read : Bool → Query → List Event → Result AuditError Page
  unfolding read_loop take newest_first normalize_query
  read done query records = do
    reject done context_done
    filter ← normalize_query query
    let entries : List Entry = read_loop filter (suc filter.limit) (newest_first records)
    let has_more : Bool = ltb filter.limit (length entries)
    ok (record {
      entries = if has_more then take filter.limit entries else entries;
      has_more = has_more;
    })
