-- ===== src/Prelude/TextOrder.antt =====
-- The order of texts by their bytes, `a < b` on strings.
use Prim.Native.Nat.{compare as compare_ℕ}
use Prim.Native.Char.{Char, code}
use Prim.Native.String.compare
use Prim.Native.String.{String, [], ◌∷◌, compare}
use text.Mathlib.Text.{is_lt}
use mathlib.Core.Path.{◌≡◌, refl, sym, ap, ap₂, ◌∙◌}
use mathlib.Core.Bool.{Bool, true, false, ◌&&◌, ◌||◌}
use control_center_developme.Prelude.Tests.{ltb, ◌==◌}
use native.Mathlib.Omega.{arith}
use text.Mathlib.TextEquality.{codes_equal}
use text.Mathlib.TextPositions.{compare_self}

abbrev before : String → String → Bool
before a b = is_lt (compare a b)

before-cons :
    (c d : Char) (s t : String)
    → before (c ∷ s) (d ∷ t) ≡ (ltb (code c) (code d) || (code c == code d && before s t))
before-cons c d s t = rw (compare.cons-cons c d s t) (ground arith)

-- What is not after a text, and that not after another.
pub text_order_trans :
    (a b c : String) → before b a ≡ false → before c b ≡ false → before c a ≡ false
text_order_trans [] b [] p q = refl
text_order_trans [] b (z ∷ u) p q = rw (compare.cons-nil z u) refl
text_order_trans (x ∷ s) [] c p q = absurd (cc (p, compare.nil-cons x s))
text_order_trans (x ∷ s) (y ∷ t) [] p q = absurd (cc (q, compare.nil-cons y t))
text_order_trans (x ∷ s) (y ∷ t) (z ∷ u) p q =
    let r = text_order_trans s t u in
    rw (before-cons z x u s)
      (ground (arith, rw (before-cons y x t s) at p, rw (before-cons z y u t) at q, r))

pub text_order_antisymm : (a b : String) → before a b ≡ false → before b a ≡ false → a ≡ b
text_order_antisymm [] [] p q = refl
text_order_antisymm [] (y ∷ t) p q = absurd (cc (p, compare.nil-cons y t))
text_order_antisymm (x ∷ s) [] p q = absurd (cc (q, compare.nil-cons x s))
text_order_antisymm (x ∷ s) (y ∷ t) p q =
    let p' = rw (before-cons x y s t) at p in
    let q' = rw (before-cons y x t s) at q in
    let same : code x ≡ code y = ground arith in
    let equal = ap (compare_ℕ (code x)) (sym same) ∙ compare_self (code x) in
    ap₂ ◌∷◌ (codes_equal x y equal) (text_order_antisymm s t (ground arith) (ground arith))

pub text_order_total : (a b : String) → before a b ≡ true → before b a ≡ false
text_order_total [] [] p = absurd (cc (p))
text_order_total [] (y ∷ t) p = rw (compare.cons-nil y t) refl
text_order_total (x ∷ s) [] p = absurd (cc (p, compare.cons-nil x s))
text_order_total (x ∷ s) (y ∷ t) p =
    let p' = rw (before-cons x y s t) at p in
    let rest = text_order_total s t in rw (before-cons y x t s) (ground arith)
