-- ===== src/Audit/Log.antt =====
-- internal/identity/audit/audit.go and integrity.go: redaction, the chain of hashes, and MemoryLog,
-- whose records stand oldest first. A call takes what the clock and the random source give, and
-- whether its context is done.
use control_center_developme.Prelude.Hex.{is_hex_id, is_hyphenated, remove_hyphens, runes}
use control_center_developme.Prelude.Text.{trim_space}
use control_center_developme.Prelude.{
  ℕ, suc, ◌-◌, ◌%◌, String, Bool, false, not, ◌&&◌, ◌||◌, Option, none, some, List, [], ◌∷◌, ◌++◌,
  length, ◌==◌, ◌=s◌, if◌then◌else◌, Result, ok, err, ◌>>=◌, ◌>>◌, reject, require,
}
use control_center_developme.Audit.Types.{
  Detail, text, other, array, object, Details, no_details, next_detail, Fields, no_fields,
  next_field, Event,
}

-- The errors; the texts are in the source.
pub data AuditError : Type 0 where
  context_done action_required timestamp_required not_canonical previous_mismatch hash_mismatch :
      AuditError
  at_offset : ℕ → AuditError → AuditError
  limit_range cursor_negative action_too_long outcome_too_long identity_too_long : AuditError

-- IntegrityReport: EventsChecked and HeadHash
pub record IntegrityReport : Type 0 where
  pub events_checked : ℕ
  pub head_hash : String

-- What the log takes from `crypto/sha256` with `encoding/json` and `encoding/hex`, of an event whose
-- hash is empty, and from `regexp`: whether a key matches sensitiveKey, and a text in which the
-- matches of bearerValue are replaced.
pub record AuditPlatform : Type 0 where
  pub event_digest : Event → String
  pub sensitive_key : String → Bool
  pub redact_bearer : String → String

module _ (platform : AuditPlatform) where
  open platform use {event_digest, sensitive_key, redact_bearer}

  unfoldable mutual
    -- redactValue
    pub redact_value : Detail → Detail
    redact_value (text value) = text (redact_bearer value)
    redact_value (other value) = other value
    redact_value (array values) = array (redact_values values)
    redact_value (object fields) = object (redact_fields fields)

    pub redact_values : Details → Details
    redact_values no_details = no_details
    redact_values (next_detail value rest) = next_detail (redact_value value) (redact_values rest)

    -- Redact, of a map
    pub redact_fields : Fields → Fields
    redact_fields no_fields = no_fields
    redact_fields (next_field key value rest) =
        next_field key (if sensitive_key key then text "[REDACTED]" else redact_value value)
          (redact_fields rest)

  -- Redact
  unfoldable pub redact : Option Fields → Option Fields
  redact none = none
  redact (some fields) = some (redact_fields fields)

  -- hashEvent
  abbrev pub hash_event : Event → String
  hash_event event = event_digest (record event { hash = "" })

  -- `OccurredAt`, or the time that the clock gives, in whole microseconds
  abbrev pub stamp : ℕ → ℕ → ℕ
  stamp occurred_at now =
      let at : ℕ = if occurred_at == 0 then now else occurred_at in at - at % 1000

  -- Prepare, behind its check
  unfoldable pub prepared : ℕ → String → Event → String → Event
  unfolding redact
  prepared now fresh_id event previous_hash =
      let linked : Event = record event {
        id = if event.id =s "" then fresh_id else event.id;
        occurred_at = stamp event.occurred_at now;
        details = redact event.details;
        previous_hash = previous_hash;
      } in
      record linked { hash = hash_event linked }

  -- Prepare
  unfoldable pub prepare : ℕ → String → Event → String → Result AuditError Event
  unfolding prepared trim_space
  prepare now fresh_id event previous_hash = do
    reject (trim_space event.action =s "" || trim_space event.outcome =s "") action_required
    ok (prepared now fresh_id event previous_hash)

  -- `l.records[len(l.records)-1].Hash`, or the empty hash
  unfoldable pub last_hash : String → List Event → String
  last_hash previous [] = previous
  last_hash previous (event ∷ rest) = last_hash event.hash rest

  -- MemoryLog.Append
  unfoldable pub append : Bool → ℕ → String → Event → List Event → Result AuditError (List Event)
  unfolding prepare last_hash
  append done now fresh_id event records = do
    reject done context_done
    next ← prepare now fresh_id event (last_hash "" records)
    ok (records ++ (next ∷ []))

  -- legacyUnhyphenatedUUID
  unfoldable pub legacy_id : String → Option String
  unfolding is_hyphenated remove_hyphens runes
  legacy_id value =
      if is_hyphenated value && is_hex_id (runes (remove_hyphens value))
      then some (remove_hyphens value)
      else none

  -- The hash of an event, or of its form before release 0.25
  abbrev pub legacy_matches : Event → Option String → Bool
  legacy_matches event none = false
  legacy_matches event (some id) = hash_event (record event { id = id }) =s event.hash

  -- Verify
  unfoldable pub verify : Event → String → Result AuditError (Unit {0})
  unfolding legacy_id
  verify event expected_previous_hash = do
    reject (event.occurred_at == 0) timestamp_required
    reject (not (event.occurred_at % 1000 == 0)) not_canonical
    require (event.previous_hash =s expected_previous_hash) previous_mismatch
    reject (event.hash =s "") hash_mismatch
    require (hash_event event =s event.hash || legacy_matches event (legacy_id event.id))
        hash_mismatch

  abbrev pub with_offset : ℕ → Result AuditError (Unit {0}) → Result AuditError (Unit {0})
  with_offset offset (ok u) = ok u
  with_offset offset (err e) = err (at_offset offset e)

  -- The loop of InspectChain
  unfoldable pub inspect_loop : ℕ → String → List Event → Result AuditError String
  unfolding verify
  inspect_loop offset previous_hash [] = ok previous_hash
  inspect_loop offset previous_hash (event ∷ rest) = do
    with_offset offset (verify event previous_hash)
    inspect_loop (suc offset) event.hash rest

  -- MemoryLog.InspectChain
  unfoldable pub inspect_chain : Bool → List Event → Result AuditError IntegrityReport
  unfolding inspect_loop
  inspect_chain done records = do
    reject done context_done
    head ← inspect_loop 0 "" records
    ok (record { events_checked = length records; head_hash = head })
