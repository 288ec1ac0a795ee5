-- ===== src/Prelude/Maps.antt =====
-- Go's `map[string]V` as an association list in an order of iteration: the first entry of a key is
-- its value. What iterates over a map says what order it relies on.
use Prim.Native.Nat.{ℕ, suc, ◌+◌, ◌≤◌}
use Prim.Native.String.{String}
use mathlib.Core.Path.{◌≡◌, refl}
use mathlib.Core.Option.{Option, none, some}
use mathlib.Core.List.{List, [], ◌∷◌}
use native.Mathlib.Omega.{arith}
use mathlib.Core.Logic.{inl, inr}
use text.Mathlib.TextPositions.{eq_refl}
use control_center_developme.Prelude.Lists.{All, All-map_pointwise}
use control_center_developme.Prelude.Tests.{◌=s◌, if◌then◌else◌, =s_iff, Bool-cases}

abbrev pub Store {ℓ} : Type ℓ → Type ℓ
Store V = List (String × V)

module _ {ℓ} {V : Type ℓ} where
  -- v, ok := m[k]
  unfoldable pub find : String → Store V → Option V
  find k [] = none
  find k ((j, v) ∷ m) = if j =s k then some v else find k m

  -- m[k] = v
  unfoldable pub put : String → V → Store V → Store V
  put k v [] = (k, v) ∷ []
  put k v ((j, w) ∷ m) = if j =s k then (j, v) ∷ m else (j, w) ∷ put k v m

  -- delete(m, k)
  unfoldable pub delete : String → Store V → Store V
  delete k [] = []
  delete k ((j, w) ∷ m) = let rest = delete k m in if j =s k then rest else (j, w) ∷ rest

  -- The keys, in the order of iteration.
  unfoldable pub keys : Store V → List String
  keys [] = []
  keys ((j, w) ∷ m) = j ∷ keys m

  -- len(m)
  unfoldable pub size : Store V → ℕ
  size [] = 0
  size (e ∷ m) = suc (size m)

  pub find-put :
      (k j : String) (v : V) (m : Store V)
      → find j (put k v m) ≡ (if k =s j then some v else find j m)
  unfolding find put
  find-put k j v [] = refl
  find-put k j v ((i, w) ∷ m) = ground (arith, =s_iff k j, =s_iff i k, =s_iff i j, find-put k j v m)

  pub find-delete :
      (k j : String) (m : Store V) → find j (delete k m) ≡ (if k =s j then none else find j m)
  unfolding find delete
  find-delete k j [] = ground arith
  find-delete k j ((i, w) ∷ m) =
      ground (arith, =s_iff k j, =s_iff i k, =s_iff i j, find-delete k j m)

  -- A write to a key that is there keeps the number of keys, any other adds one.
  pub size-put : (k : String) (v : V) (m : Store V) → size (put k v m) ≤ size m + 1
  unfolding size put
  size-put k v [] = omega arith
  size-put k v ((i, w) ∷ m) = ground (arith, size-put k v m)

  pub size-put_old :
      (k : String) (v w : V) (m : Store V) → find k m ≡ some w → size (put k v m) ≡ size m
  unfolding size put find
  size-put_old k v w [] h = ground arith
  size-put_old k v w ((i, u) ∷ m) h = ground (arith, size-put_old k v w m)

  pub size-delete : (k : String) (m : Store V) → size (delete k m) ≤ size m
  unfolding size delete
  size-delete k [] = omega arith
  size-delete k ((i, w) ∷ m) = ground (arith, size-delete k m)

  pub size-delete_old :
      (k : String) (w : V) (m : Store V) → find k m ≡ some w → size (delete k m) + 1 ≤ size m
  unfolding size delete find
  size-delete_old k w [] h = ground arith
  size-delete_old k w ((i, u) ∷ m) h = ground (arith, size-delete_old k w m, size-delete k m)

  -- A key at which the map has a value.
  abbrev pub IsKey : Store V → String → Type ℓ
  IsKey m k = (v : V) × (find k m ≡ some v)

  IsKey-cons : (j k : String) (w : V) (m : Store V) → IsKey m k → IsKey ((j, w) ∷ m) k
  unfolding find
  IsKey-cons j k w m (v, h) = elim (Bool-cases (j =s k)) [ inl e ↦ (w, rw e) | inr e ↦ (v, rw e h) ]

  IsKey-head : (j : String) (w : V) (m : Store V) → IsKey ((j, w) ∷ m) j
  unfolding find
  IsKey-head j w m = (w, rw (eq_refl j))

  pub keys-IsKey : (m : Store V) → All (IsKey m) (keys m)
  unfolding keys
  keys-IsKey [] = tt
  keys-IsKey ((j, w) ∷ m) =
      (IsKey-head j w m, All-map_pointwise (keys m) (λ k h. IsKey-cons j k w m h) (keys-IsKey m))

  pub IsKey-put : (k j : String) (v : V) (m : Store V) → IsKey m j → IsKey (put k v m) j
  IsKey-put k j v m (w, h) = elim (Bool-cases (k =s j)) [
    | inl e ↦ (v, rw (find-put, e))
    | inr e ↦ (w, rw (find-put, e) h)
  ]
