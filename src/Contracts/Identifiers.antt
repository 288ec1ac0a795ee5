-- ===== src/Contracts/Identifiers.antt =====
-- The identifier patterns of internal/corecontracts/metadata.go and
-- internal/networkpolicy/change_plan.go, and the opaque versions.
use Prim.Native.Char.{code}
use Prim.Native.String.{len, [], ◌∷◌}
use control_center_developme.Prelude.Text.{is_space, is_control, trim_space, any_rune}
use control_center_developme.Prelude.{
  ℕ, zero, suc, String, Bool, false, not, ◌&&◌, ◌||◌, ltb, leb, ◌==◌, ◌=s◌,
}

-- [A-Za-z0-9]
unfoldable pub is_alnum : ℕ → Bool
is_alnum c = (leb b'A' c && leb c b'Z') || (leb b'a' c && leb c b'z') || (leb b'0' c && leb c b'9')

-- [A-Za-z0-9._-]
unfoldable pub is_word : ℕ → Bool
unfolding is_alnum
is_word c = is_alnum c || c == b'.' || c == b'_' || c == b'-'

-- [A-Za-z0-9._:-]
unfoldable pub is_word_or_colon : ℕ → Bool
unfolding is_word
is_word_or_colon c = is_word c || c == b':'

-- `class{0,n}[A-Za-z0-9]$`
unfoldable pub ends_alnum : (ℕ → Bool) → ℕ → String → Bool
unfolding is_alnum
ends_alnum class n [] = false
ends_alnum class n (c ∷ []) = is_alnum (code c)
ends_alnum class zero (c ∷ d ∷ s) = false
ends_alnum class (suc n) (c ∷ d ∷ s) = class (code c) && ends_alnum class n (d ∷ s)

-- `^[A-Za-z0-9](?:class{0,n}[A-Za-z0-9])?$`
unfoldable pub matches_identifier : (ℕ → Bool) → ℕ → String → Bool
unfolding is_alnum ends_alnum
matches_identifier class n [] = false
matches_identifier class n (c ∷ []) = is_alnum (code c)
matches_identifier class n (c ∷ d ∷ s) = is_alnum (code c) && ends_alnum class n (d ∷ s)

abbrev pub max_identifier_length : ℕ
max_identifier_length = 255

-- validateIdentifier returned no error
unfoldable pub valid_identifier : String → Bool
unfolding trim_space matches_identifier is_word_or_colon
valid_identifier value =
    not (value =s "" || not (trim_space value =s value))
    && not (ltb max_identifier_length (len value))
    && matches_identifier is_word_or_colon 253 value

-- validateOpaqueVersion returned no error
unfoldable pub valid_opaque_version : String → Bool
unfolding trim_space any_rune is_control
valid_opaque_version value =
    not (value =s "" || not (trim_space value =s value))
    && not (ltb max_identifier_length (len value))
    && not (any_rune (λ r. is_control r || is_space r) value)
