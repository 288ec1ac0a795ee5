-- ===== src/Audit/Chain.antt =====
-- For internal/identity/audit: the chain of hashes behind appends, and changes of its events.
use control_center_developme.Prelude.{
  ℕ, suc, ◌%◌, ◌≤◌, String, ◌≡◌, ◌≢◌, refl, inl, inr, Bool, true, false, List, [], ◌∷◌, ◌++◌,
  length, arith, ◌=s◌, =s_iff, ◌==◌, if◌then◌else◌, Result, ok, err, Result-cases, >>=-eq-ok, All,
}
use control_center_developme.Audit.Types.{Event}
use control_center_developme.Audit.Log.{
  AuditError, AuditPlatform, hash_event, stamp, prepared, prepare, last_hash, append, verify,
  with_offset, inspect_loop, inspect_chain,
}

-- A call of Append: whether its context is done, what the clock and the random source give, and
-- the event.
pub record Call : Type 0 where
  pub done : Bool
  pub now : ℕ
  pub fresh_id : String
  pub event : Event

module _ (platform : AuditPlatform) where
  open platform use {event_digest}

  -- An event with a time that is not lost in the first microsecond of all time.
  abbrev pub IsDated : ℕ → Event → Type 0
  IsDated now event = 1000 ≤ (if event.occurred_at == 0 then now else event.occurred_at)

  stamp-canonical :
      (occurred_at now : ℕ)
      → 1000 ≤ (if occurred_at == 0 then now else occurred_at)
      → ((stamp platform occurred_at now == 0) ≡ false)
        × ((stamp platform occurred_at now % 1000 == 0) ≡ true)
  stamp-canonical occurred_at now h = ground arith

  verify-ok :
      (e : Event) (previous : String)
      → (e.occurred_at == 0) ≡ false
      → (e.occurred_at % 1000 == 0) ≡ true
      → e.previous_hash ≡ previous
      → e.hash ≢ ""
      → hash_event platform e ≡ e.hash
      → verify platform e previous ≡ ok tt
  unfolding verify
  verify-ok e previous dated canonical linked hashed same =
      let filled : (e.hash =s "") ≡ false = ground (arith, =s_iff e.hash "") in
      let follows : (e.previous_hash =s previous) ≡ true =
        (=s_iff e.previous_hash previous).1 linked in
      let matches : (hash_event platform e =s e.hash) ≡ true =
        (=s_iff (hash_event platform e) e.hash).1 same in
      rw (dated, canonical, follows, filled, matches) refl

  verify-prepared :
      (now : ℕ) (fresh_id : String) (event : Event) (previous : String)
      → IsDated now event
      → ((e : Event) → event_digest e ≢ "")
      → verify platform (prepared platform now fresh_id event previous) previous ≡ ok tt
  unfolding prepared
  verify-prepared now fresh_id event previous dated hashed =
      let (late, whole) = stamp-canonical event.occurred_at now dated in
      verify-ok (prepared platform now fresh_id event previous) previous late whole refl (hashed _)
        refl

  inspect_loop-grown :
      (offset : ℕ) (previous : String) (records : List Event) (next : Event)
      → inspect_loop platform offset previous records ≡ ok (last_hash platform previous records)
      → verify platform next (last_hash platform previous records) ≡ ok tt
      → inspect_loop platform offset previous (records ++ (next ∷ []))
        ≡ ok (last_hash platform previous (records ++ (next ∷ [])))
  unfolding inspect_loop last_hash
  inspect_loop-grown offset previous [] next h v = rw v refl
  inspect_loop-grown offset previous (event ∷ rest) next h v =
      let (u, valid, later) =
        >>=-eq-ok (with_offset platform offset (verify platform event previous)) _ _ h in
      rw valid (inspect_loop-grown (suc offset) event.hash rest next later v)

  abbrev pub behind : List Event → Result AuditError (List Event) → List Event
  behind records (ok next) = next
  behind records (err e) = records

  -- The records behind calls of Append, failing ones included.
  unfoldable pub append_all : List Call → List Event → List Event
  append_all [] records = records
  append_all (call ∷ calls) records =
      append_all calls
        (behind records (append platform call.done call.now call.fresh_id call.event records))

  -- The events of the calls are dated.
  abbrev pub AreDated : List Call → Type 0
  AreDated calls = All (λ (call : Call). IsDated call.now call.event) calls

  abbrev pub IsChain : List Event → Type 0
  IsChain records = inspect_loop platform 0 "" records ≡ ok (last_hash platform "" records)

  append-IsChain :
      (call : Call) (records : List Event)
      → ((e : Event) → event_digest e ≢ "")
      → IsDated call.now call.event
      → IsChain records
      → IsChain
          (behind records (append platform call.done call.now call.fresh_id call.event records))
  append-IsChain call records hashed dated h =
      let r = append platform call.done call.now call.fresh_id call.event records in
      elim (Result-cases r) [
        | inr (e, f) ↦ rw f h
        | inl (next, f) ↦
            let grown : next
                ≡ records
                  ++ (prepared platform call.now call.fresh_id call.event
                        (last_hash platform "" records)
                      ∷ []) =
              unfold append prepare in ground arith in
            rw (f, grown)
              (inspect_loop-grown 0 "" records
                (prepared platform call.now call.fresh_id call.event
                  (last_hash platform "" records))
                h
                (verify-prepared call.now call.fresh_id call.event (last_hash platform "" records)
                  dated hashed))
      ]

  append_all-IsChain :
      (calls : List Call) (records : List Event)
      → ((e : Event) → event_digest e ≢ "")
      → AreDated calls
      → IsChain records
      → IsChain (append_all calls records)
  unfolding append_all
  append_all-IsChain [] records hashed dated h = h
  append_all-IsChain (call ∷ calls) records hashed dated h =
      append_all-IsChain calls _ hashed dated.1 (append-IsChain call records hashed dated.0 h)

  -- Behind any calls of Append on an empty log, failing ones included, InspectChain verifies the
  -- whole chain and reports the number of events and the last hash, if no digest is empty and every
  -- event, or the clock where it has no time, is at least a microsecond past the zero time.
  pub append_all-inspect_chain :
      (calls : List Call)
      → ((e : Event) → event_digest e ≢ "")
      → AreDated calls
      → inspect_chain platform false (append_all calls [])
        ≡ ok (record {
          events_checked = length (append_all calls []);
          head_hash = last_hash platform "" (append_all calls []);
        })
  unfolding inspect_chain
  append_all-inspect_chain calls hashed dated =
      rw (append_all-IsChain calls [] hashed dated (unfold inspect_loop last_hash in refl)) refl
