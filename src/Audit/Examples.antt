-- ===== src/Audit/Examples.antt =====
-- For internal/identity/audit: two events under a digest of the action and the id.
use control_center_developme.Prelude.Hex.{is_hyphenated, remove_hyphens, runes, rune_at, all_hex}
use control_center_developme.Prelude.Text.{
  text_append, trim_space, trim_left, trim_right, is_space, byte_length,
}
use control_center_developme.Prelude.Ints.{pos}
use control_center_developme.Prelude.{
  ◌≡◌, ◌≢◌, ◌≤◌, refl, true, false, String, none, some, List, [], ◌∷◌, length, ok, ltb, arith, ◌⊎◌,
  inl, inr, ap, sym, ◌∙◌, some-injective, ◌=s◌, =s_iff, if◌then◌else◌, Bool-cases,
}
use control_center_developme.Audit.Types.{Event}
use control_center_developme.Audit.Log.{
  AuditPlatform, inspect_chain, inspect_loop, last_hash, verify, legacy_id,
}
use control_center_developme.Audit.Chain.{Call, append_all, append_all-inspect_chain}
use control_center_developme.Audit.Tampering.{inspect_chain-content, SameContent}
use control_center_developme.Audit.Reading.{
  Query, Filter, read, newest_first, normalize_query, take,
}
use control_center_developme.Audit.Paging.{all_entries, read-take}

abbrev filled : String → String
filled s = if s =s "" then "-" else s

apart_dash : ◌≢◌ {A = String} "-" ""
apart_dash = λ e. cc e

filled_lem : (s : String) → filled s ≢ ""
filled_lem s = elim (Bool-cases (s =s "")) [
  | inl e ↦ λ h. apart_dash (rw e at h)
  | inr e ↦ λ h. cc (sym e ∙ (=s_iff s "").1 (rw e at h))
]

abbrev platform : AuditPlatform
platform = record {
  event_digest = λ e. filled (text_append e.action e.id);
  sensitive_key = λ key. false;
  redact_bearer = λ text. text;
}

abbrev login_event : Event
login_event = record {
  id = "";
  occurred_at = 0;
  action = "auth.login";
  outcome = "success";
  actor_id = "u1";
  subject_id = "";
  source_ip = "";
  correlation_id = "";
  details = none;
  previous_hash = "";
  hash = "";
}

abbrev calls_1 : List Call
calls_1 =
    record { done = false; now = 5000; fresh_id = "1"; event = login_event }
    ∷ record { done = true; now = 6000; fresh_id = "2"; event = login_event }
    ∷ record { done = false; now = 7000; fresh_id = "3"; event = login_event }
    ∷ []

append_all-inspect_chain_example :
    inspect_chain platform false (append_all platform calls_1 [])
    ≡ ok (record {
      events_checked = length (append_all platform calls_1 []);
      head_hash = last_hash platform "" (append_all platform calls_1 []);
    })
append_all-inspect_chain_example =
    append_all-inspect_chain platform calls_1 (λ e. filled_lem (text_append e.action e.id))
      (omega arith, (omega arith, (omega arith, tt)))

-- The event as it is stored with a hyphenated id, under the hash of its older form.
abbrev hyphenated : Event
hyphenated = record login_event {
  id = "00000000-0000-0000-0000-000000000001";
  occurred_at = 5000;
  hash = "auth.login00000000000000000000000000000001";
}

abbrev compact : Event
compact = record hyphenated { id = "00000000000000000000000000000001" }

abbrev Form : Event → Type 0
Form e = (e ≡ record hyphenated { hash = "" }) ⊎ (e ≡ record compact { hash = "" })

hyphenated_legacy :
    legacy_id platform "00000000-0000-0000-0000-000000000001"
    ≡ some "00000000000000000000000000000001"
unfolding legacy_id is_hyphenated remove_hyphens runes rune_at all_hex
hyphenated_legacy = refl

compact_legacy : legacy_id platform "00000000000000000000000000000001" ≡ none
unfolding legacy_id is_hyphenated remove_hyphens runes rune_at all_hex
compact_legacy = refl

inspected_hyphenated :
    inspect_chain platform false (hyphenated ∷ [])
    ≡ ok (record { events_checked = 1; head_hash = hyphenated.hash })
unfolding inspect_chain inspect_loop verify legacy_id is_hyphenated remove_hyphens runes rune_at
    all_hex
inspected_hyphenated = refl

inspected_compact :
    inspect_chain platform false (compact ∷ [])
    ≡ ok (record { events_checked = 1; head_hash = hyphenated.hash })
unfolding inspect_chain inspect_loop verify legacy_id is_hyphenated remove_hyphens runes rune_at
    all_hex
inspected_compact = refl

abbrev with_id : String → Event
with_id id = record hyphenated { id = id; hash = "" }

apart :
    ◌≢◌ {A = String} "auth.login00000000-0000-0000-0000-000000000001"
      "auth.login00000000000000000000000000000001"
apart = λ e. cc e

no_collision :
    (a b : Event) → Form a → Form b → platform.event_digest a ≡ platform.event_digest b → a ≡ b
no_collision a b (inl p) (inl q) same = p ∙ sym q
no_collision a b (inr p) (inr q) same = p ∙ sym q
no_collision a b (inl p) (inr q) same = absurd (apart (rw (p, q) at same))
no_collision a b (inr p) (inl q) same = absurd (apart (sym (rw (p, q) at same)))

inspect_chain-content_example : SameContent platform (hyphenated ∷ []) (compact ∷ [])
inspect_chain-content_example =
    inspect_chain-content platform Form (hyphenated ∷ []) (compact ∷ [])
      (record { events_checked = 1; head_hash = hyphenated.hash }) no_collision
      (
        (inl refl, λ legacy e. inr (ap with_id (some-injective _ _ (sym e ∙ hyphenated_legacy)))),
        tt,
      )
      ((inr refl, λ legacy e. absurd (cc (compact_legacy, e))), tt) inspected_hyphenated
      inspected_compact

abbrev query_1 : Query
query_1 = record {
  limit = pos 1;
  before_sequence_id = pos 0;
  action = " auth.login ";
  outcome = "";
  actor_id = "";
  subject_id = "";
}

abbrev filter_1 : Filter
filter_1 = record {
  limit = 1;
  before_sequence_id = 0;
  action = "auth.login";
  outcome = "";
  actor_id = "";
  subject_id = "";
}

query_normal : normalize_query query_1 ≡ ok filter_1
unfolding normalize_query trim_space trim_left trim_right is_space byte_length
query_normal = refl

read-take_example :
    (1 ≤ 1)
    × (1 ≤ 100)
    × (read platform false query_1 (hyphenated ∷ compact ∷ [])
        ≡ ok (record {
          entries =
              take 1 (all_entries platform filter_1 (newest_first (hyphenated ∷ compact ∷ [])));
          has_more =
              ltb 1
                (length (all_entries platform filter_1 (newest_first (hyphenated ∷ compact ∷ []))));
        }))
read-take_example = read-take platform query_1 filter_1 (hyphenated ∷ compact ∷ []) query_normal
