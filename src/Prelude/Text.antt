-- ===== src/Prelude/Text.antt =====
-- What the source uses of Go's `strings` and `unicode` packages, over valid UTF-8 text.
use Prim.Native.Nat.{ℕ, ◌+◌}
use Prim.Native.Char.{code}
use Prim.Native.String.{String, [], ◌∷◌}
use mathlib.Core.Path.{◌≡◌, refl}
use mathlib.Core.Bool.{Bool, false, ◌&&◌, ◌||◌}
use control_center_developme.Prelude.Tests.{leb, ◌==◌, ◌=s◌, if◌then◌else◌}

-- unicode.IsSpace
unfoldable pub is_space : ℕ → Bool
is_space c =
    (leb 9 c && leb c 13)
    || c == 0x20
    || c == 0x85
    || c == 0xA0
    || c == 0x1680
    || (leb 0x2000 c && leb c 0x200A)
    || c == 0x2028
    || c == 0x2029
    || c == 0x202F
    || c == 0x205F
    || c == 0x3000

-- unicode.IsControl
unfoldable pub is_control : ℕ → Bool
is_control c = leb c 0x1F || (leb 0x7F c && leb c 0x9F)

unfoldable pub trim_left : String → String
trim_left [] = []
trim_left (c ∷ s) = let rest = trim_left s in if is_space (code c) then rest else c ∷ s

unfoldable pub trim_right : String → String
trim_right [] = []
trim_right (c ∷ s) =
    let rest = trim_right s in if is_space (code c) && (rest =s "") then [] else c ∷ rest

-- strings.TrimSpace
unfoldable pub trim_space : String → String
unfolding trim_left trim_right is_space
trim_space s = trim_right (trim_left s)

-- `for _, r := range value { if test(r) { return ... } }`
unfoldable pub any_rune : (ℕ → Bool) → String → Bool
any_rune test [] = false
any_rune test (c ∷ s) = test (code c) || any_rune test s

trims : trim_space " \t a b \n" ≡ "a b"
unfolding trim_space
trims = refl

-- The concatenation of texts.
abbrev pub text_append : String → String → String
text_append s t = Prim.Native.String.◌++◌ s t

-- The number of bytes of a character.
abbrev pub rune_length : ℕ → ℕ
rune_length c = if leb c 0x7F then 1 else if leb c 0x7FF then 2 else if leb c 0xFFFF then 3 else 4

-- len(value)
unfoldable pub byte_length : String → ℕ
byte_length [] = 0
byte_length (c ∷ s) = rune_length (code c) + byte_length s
