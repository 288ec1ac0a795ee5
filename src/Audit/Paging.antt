-- ===== src/Audit/Paging.antt =====
-- For internal/identity/audit/audit.go: the pages of MemoryLog.Read against all entries of a query.
use control_center_developme.Prelude.{
  ℕ, zero, suc, ◌≤◌, ◌≡◌, refl, sym, ap, ◌∙◌, inl, inr, false, List, [], ◌∷◌, length, ltb, arith,
  if◌then◌else◌, Bool-cases, ok,
}
use control_center_developme.Audit.Types.{Event}
use control_center_developme.Audit.Log.{AuditPlatform}
use control_center_developme.Audit.Reading.{
  Query, Entry, Filter, normalize_query, selected, take, newest_first, entry_of, read_loop, read,
}

take-zero : {A : Type 0} (xs : List A) → take 0 xs ≡ []
unfolding take
take-zero [] = refl
take-zero (x ∷ xs) = refl

take-all : {A : Type 0} (n : ℕ) (xs : List A) → length xs ≤ n → take n xs ≡ xs
unfolding take
take-all n [] h = refl
take-all zero (x ∷ xs) h = absurd (omega (arith, h))
take-all (suc n) (x ∷ xs) h = ap (λ ys. x ∷ ys) (take-all n xs (omega (arith, h)))

take-take : {A : Type 0} (n : ℕ) (xs : List A) → take n (take (suc n) xs) ≡ take n xs
unfolding take
take-take zero [] = refl
take-take zero (x ∷ xs) = refl
take-take (suc n) [] = refl
take-take (suc n) (x ∷ xs) = ap (λ ys. x ∷ ys) (take-take n xs)

ltb-length-take :
    {A : Type 0} (n : ℕ) (xs : List A) → ltb n (length (take (suc n) xs)) ≡ ltb n (length xs)
unfolding take
ltb-length-take zero [] = refl
ltb-length-take zero (x ∷ []) = refl
ltb-length-take zero (x ∷ y ∷ xs) = ground arith
ltb-length-take (suc n) [] = ground arith
ltb-length-take (suc n) (x ∷ xs) = let rest = ltb-length-take n xs in ground arith

module _ (platform : AuditPlatform) where
  -- All entries of a query, the newest first, without a limit.
  unfoldable pub all_entries : Filter → List Event → List Entry
  all_entries query [] = []
  all_entries query (event ∷ older) =
      let rest : List Entry = all_entries query older in
      if selected query (length (event ∷ older)) event
      then entry_of platform (length (event ∷ older)) event ∷ rest
      else rest

  read_loop-take :
      (query : Filter) (room : ℕ) (records : List Event)
      → read_loop platform query room records ≡ take room (all_entries query records)
  unfolding read_loop take all_entries
  read_loop-take query zero [] = refl
  read_loop-take query zero (event ∷ older) = sym (take-zero _)
  read_loop-take query (suc room) [] = refl
  read_loop-take query (suc room) (event ∷ older) =
      elim (Bool-cases (selected query (length (event ∷ older)) event)) [
        | inl h ↦ rw h (
            ap (λ es. entry_of platform (length (event ∷ older)) event ∷ es)
              (read_loop-take query room older))
        | inr h ↦ rw h (read_loop-take query (suc room) older)
      ]

  -- The entries that Read cuts from what its loop collects.
  cut-take :
      (limit : ℕ) (xs : List Entry)
      → (if ltb limit (length (take (suc limit) xs))
          then take limit (take (suc limit) xs)
          else take (suc limit) xs)
        ≡ take limit xs
  cut-take limit xs = elim (Bool-cases (ltb limit (length (take (suc limit) xs)))) [
    | inl h ↦ rw h (take-take limit xs)
    | inr h ↦ rw h (sym (take-all limit (take (suc limit) xs) (ground arith)) ∙ take-take limit xs)
  ]

  normalize_query-limit :
      (query : Query) (f : Filter) → normalize_query query ≡ ok f → (1 ≤ f.limit) × (f.limit ≤ 100)
  unfolding normalize_query
  normalize_query-limit query f h = ground arith

  -- For a query that is normalized, Read gives the newest of all the entries that the query
  -- selects, up to a limit between 1 and 100, and says that there are more exactly if there are.
  pub read-take :
      (query : Query) (f : Filter) (records : List Event)
      → normalize_query query ≡ ok f
      → (1 ≤ f.limit)
        × (f.limit ≤ 100)
        × (read platform false query records
            ≡ ok (record {
              entries = take f.limit (all_entries f (newest_first records));
              has_more = ltb f.limit (length (all_entries f (newest_first records)));
            }))
  unfolding read
  read-take query f records h =
      let (low, high) = normalize_query-limit query f h in
      let all = all_entries f (newest_first records) in
      (
        low,
        high,
        rw (h, read_loop-take) (rw (cut-take f.limit all, ltb-length-take f.limit all) refl),
      )
