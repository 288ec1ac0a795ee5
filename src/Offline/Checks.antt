-- ===== src/Offline/Checks.antt =====
-- internal/siteoffline/admission.go: the forms of identifiers, actions, versions and digests.
use Prim.Native.String.{len}
use control_center_developme.Contracts.Identifiers.{is_alnum}
use control_center_developme.Prelude.Text.{any_rune, trim_space}
use control_center_developme.Prelude.{
  Bool, false, leb, ltb, not, String, true, ℕ, ◌&&◌, ◌==◌, ◌=s◌, ◌||◌,
}

-- The errors of the package.
pub data OfflineError : Type 0 where
  invalid_admission_request invalid_offline_policy invalid_queue_entry invalid_reconnect_state :
      OfflineError

-- `unknown_class` is a text that is no constant.
pub data OperationClass : Type 0 where
  ui_operation job_operation market_operation : OperationClass
  unknown_class : String → OperationClass

-- validOperationClass
abbrev pub valid_operation_class : OperationClass → Bool
valid_operation_class (unknown_class text) = false
valid_operation_class _ = true

abbrev pub same_class : OperationClass → OperationClass → Bool
same_class ui_operation ui_operation = true
same_class job_operation job_operation = true
same_class market_operation market_operation = true
same_class (unknown_class c) (unknown_class d) = c =s d
same_class _ _ = false

-- `[a-zA-Z0-9]` or one of `._:/-`
unfoldable pub is_identifier_rune : ℕ → Bool
is_identifier_rune c = is_alnum c || c == b'.' || c == b'_' || c == b':' || c == b'/' || c == b'-'

-- validateIdentifier returned no error
unfoldable pub valid_site_identifier : String → Bool
valid_site_identifier value =
    not (value =s "" || not (trim_space value =s value) || ltb 128 (len value))
    && not (any_rune (λ c. not (is_identifier_rune c)) value)

-- validateAction returned no error
unfoldable pub valid_action : String → Bool
valid_action value =
    valid_site_identifier value && not (any_rune (λ c. c == b'*' || c == b'?') value)

-- validateOpaque returned no error
unfoldable pub valid_opaque : String → Bool
valid_opaque value =
    not (value =s "" || not (trim_space value =s value) || ltb 256 (len value))
    && not (any_rune (λ c. ltb c 0x20 || c == 0x7f) value)

-- A digit that `hex.EncodeToString` writes.
abbrev pub is_hex_digit : ℕ → Bool
is_hex_digit c = (leb b'0' c && leb c b'9') || (leb b'a' c && leb c b'f')

-- validDigest: decoding and encoding again gives the text, if it is of lower-case digits.
unfoldable pub valid_digest : String → Bool
valid_digest value = len value == 64 && not (any_rune (λ c. not (is_hex_digit c)) value)
