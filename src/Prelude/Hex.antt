-- ===== src/Prelude/Hex.antt =====
-- Identifiers in hexadecimal digits. The text is in ASCII where these say yes, so that its characters
-- are its bytes.
use control_center_developme.Prelude.Lists.{length}
use Prim.Native.Nat.{ℕ, zero, suc}
use Prim.Native.String.{String}
use mathlib.Core.Bool.{Bool, true, ◌&&◌, ◌||◌}
use mathlib.Core.List.{List, [], ◌∷◌}
use control_center_developme.Prelude.Tests.{leb, ◌==◌, if◌then◌else◌}

abbrev pub is_hyphen : ℕ → Bool
is_hyphen c = c == 0x2D

unfoldable pub runes : String → List ℕ
runes Prim.Native.String.[] = []
runes (Prim.Native.String.◌∷◌ c s) = Prim.Native.Char.code c ∷ runes s

-- value[i]
unfoldable pub rune_at : ℕ → List ℕ → ℕ
rune_at i [] = 0
rune_at zero (c ∷ cs) = c
rune_at (suc i) (c ∷ cs) = rune_at i cs

unfoldable pub drop_hyphens : List ℕ → List ℕ
drop_hyphens [] = []
drop_hyphens (c ∷ cs) = let rest = drop_hyphens cs in if is_hyphen c then rest else c ∷ rest

abbrev pub is_hex : ℕ → Bool
is_hex c = (leb 0x30 c && leb c 0x39) || (leb 0x41 c && leb c 0x46) || (leb 0x61 c && leb c 0x66)

unfoldable pub all_hex : List ℕ → Bool
all_hex [] = true
all_hex (c ∷ cs) = is_hex c && all_hex cs

abbrev pub is_hex_id : List ℕ → Bool
is_hex_id cs = (length cs == 32) && all_hex cs

-- strings.ReplaceAll(value, "-", "")
unfoldable pub remove_hyphens : String → String
remove_hyphens Prim.Native.String.[] = Prim.Native.String.[]
remove_hyphens (Prim.Native.String.◌∷◌ c s) =
    let rest = remove_hyphens s in
    if is_hyphen (Prim.Native.Char.code c) then rest else Prim.Native.String.◌∷◌ c rest

-- Text of 36 characters with the hyphens of a UUID.
unfoldable pub is_hyphenated : String → Bool
unfolding runes rune_at
is_hyphenated value =
    let cs : List ℕ = runes value in
    length cs == 36
    && is_hyphen (rune_at 8 cs)
    && is_hyphen (rune_at 13 cs)
    && is_hyphen (rune_at 18 cs)
    && is_hyphen (rune_at 23 cs)
