-- ===== src/Auth/Setup.antt =====
-- internal/identity/auth/service.go: the state of the service, its construction, and the checks and
-- events that its operations share. `none` stands for an error of the random source or the hasher.
-- that `now` gives and what the random source and the hasher give, and returns the state behind it.
use control_center_developme.Prelude.Text.{trim_space}
use control_center_developme.Prelude.Ints.{ℤ, pos, negsuc}
use control_center_developme.Prelude.{
  ℕ, zero, suc, String, Bool, true, false, ◌&&◌, Option, none, some, List, [], ◌∷◌, length, ltb,
  leb, ◌==◌, if◌then◌else◌,
}
use control_center_developme.Prelude.Hex.{
  all_hex, drop_hyphens, is_hex_id, is_hyphen, rune_at, runes,
}
use control_center_developme.Audit.Types.{Detail, text, other, Fields, no_fields, next_field, Event}
use control_center_developme.Login.Protection.{KeyPlatform, LoginProtector, minute}
use control_center_developme.Auth.Store.{MemoryStore}

-- What the service takes from `crypto/sha256` with `encoding/hex`, the number of bytes that
-- `base64.RawURLEncoding` decodes from a text, the password hasher (`none` is an error), and the
-- JSON text of a number.
pub record AuthPlatform : Type 0 where
  pub keys : KeyPlatform
  pub digest_token : String → String
  pub decoded_length : String → Option ℕ
  pub verify : String → String → Option Bool
  pub number : ℕ → String

-- Service, less its stores and its parameters
pub record Service : Type 0 where
  pub dummy_hash : String
  pub session_ttl : ℕ
  pub session_idle_timeout : ℕ

pub record ServiceState (Log : Type 0) : Type 0 where
  pub protector : LoginProtector
  pub store : MemoryStore
  pub log : Log

-- What the random source gives: `none` is an error.
pub record Random : Type 0 where
  pub token : Option String
  pub id : String

abbrev pub default_session_ttl : ℕ
default_session_ttl = 28800000000000

abbrev pub default_session_idle_timeout : ℕ
default_session_idle_timeout = 7200000000000

abbrev pub bounded : ℕ → ℕ → ℤ → Option ℕ
bounded low high (pos n) = if leb low n && leb n high then some n else none
bounded low high (negsuc n) = none

abbrev pub or_default : ℤ → ℤ
or_default (pos n) = if n == 0 then pos default_session_ttl else pos n
or_default (negsuc n) = negsuc n

-- WithSessionIdleTimeout, for each option that is not nil
unfoldable pub apply_options : List (Option ℤ) → ℤ → ℤ
apply_options [] idle = idle
apply_options (none ∷ options) idle = apply_options options idle
apply_options (some timeout ∷ options) idle = apply_options options timeout

unfoldable pub with_idle : String → ℕ → ℤ → Option Service
with_idle dummy_hash ttl idle = elim (bounded minute ttl idle) [
  | none ↦ none
  | some timeout ↦
      some (record { dummy_hash = dummy_hash; session_ttl = ttl; session_idle_timeout = timeout })
]

-- NewService, where the stores and the logger are there and the timing equalizer is hashed
unfoldable pub new_service : String → ℤ → List (Option ℤ) → Option Service
unfolding apply_options with_idle
new_service dummy_hash session_ttl options =
    elim (bounded minute 604800000000000 (or_default session_ttl)) [
      | none ↦ none
      | some ttl ↦ with_idle dummy_hash ttl (
          apply_options options (
            if ltb ttl default_session_idle_timeout
            then pos ttl
            else pos default_session_idle_timeout))
    ]

-- validSessionID. Text that is not in ASCII is refused either way, so characters stand for bytes.
unfoldable pub valid_session_id : String → Bool
unfolding runes rune_at drop_hyphens all_hex trim_space
valid_session_id value =
    let cs : List ℕ = runes (trim_space value) in
    if length cs == 36
    then is_hyphen (rune_at 8 cs)
      && is_hyphen (rune_at 13 cs)
      && is_hyphen (rune_at 18 cs)
      && is_hyphen (rune_at 23 cs)
      && is_hex_id (drop_hyphens cs)
    else is_hex_id cs

-- truncate, on the bytes of a text
unfoldable pub truncate : ℕ → List ℕ → List ℕ
truncate max [] = []
truncate zero (b ∷ bs) = []
truncate (suc max) (b ∷ bs) = b ∷ truncate max bs

unfoldable pub fields : List (String × Detail) → Fields
fields [] = no_fields
fields ((key, value) ∷ rest) = next_field key value (fields rest)

-- A map literal, or no map
unfoldable pub details_of : List (String × Detail) → Option Fields
unfolding fields
details_of [] = none
details_of (d ∷ ds) = some (fields (d ∷ ds))

-- A literal of `audit.Event`
abbrev pub event_of : String → String → String → String → String → List (String × Detail) → Event
event_of action outcome actor_id subject_id source_ip details = record {
  id = "";
  occurred_at = 0;
  action = action;
  outcome = outcome;
  actor_id = actor_id;
  subject_id = subject_id;
  source_ip = source_ip;
  correlation_id = "";
  details = details_of details;
  previous_hash = "";
  hash = "";
}

abbrev pub truth : Bool → Detail
truth true = other "true"
truth false = other "false"

-- The details of a login that is denied.
abbrev pub denied_details : String → Bool → List (String × Detail)
denied_details username true =
    ("username", text username)
    ∷ ("reason", text "invalid_credentials")
    ∷ ("login_protection", text "blocked")
    ∷ []
denied_details username false =
    ("username", text username) ∷ ("reason", text "invalid_credentials") ∷ []
