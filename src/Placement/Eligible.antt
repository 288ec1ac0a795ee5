-- ===== src/Placement/Eligible.antt =====
-- For internal/placement/plan.go: the eligible candidates and their order.
use control_center_developme.Prelude.Sort.{sort, insert_sorted, insert_sorted-All}
use control_center_developme.Prelude.Lists.{OneOf}
use control_center_developme.Prelude.{
  ℕ, ◌≤◌, String, ◌≡◌, ◌⊎◌, refl, sym, inl, inr, true, false, List, [], ◌∷◌, any, ◌=s◌, arith,
  Bool-cases, ok, ok-injective, >>=-eq-ok, reject, All, All-map_pointwise,
}
use control_center_developme.Placement.Candidates.{
  invalid_plan, Candidate, Request, normalize_candidate,
}
use control_center_developme.Placement.Plan.{
  dominant_ppm, satisfies, Ranked, rank_candidates, ranked_before,
}

-- The first has the least score of all.
unfoldable pub IsFirst : List Ranked → Type 0
IsFirst [] = Unit
IsFirst (r ∷ rs) = All (λ (e : Ranked). r.score ≤ e.score) rs

insert_sorted-IsFirst :
    (x : Ranked) (ys : List Ranked) → IsFirst ys → IsFirst (insert_sorted ranked_before x ys)
unfolding insert_sorted IsFirst
insert_sorted-IsFirst x [] h = tt
insert_sorted-IsFirst x (y ∷ ys) h = elim (Bool-cases (ranked_before y x)) [
  | inl e ↦
      let below : y.score ≤ x.score = unfold ranked_before in ground arith in
      rw e (insert_sorted-All ranked_before (λ (r : Ranked). y.score ≤ r.score) x ys below h)
  | inr e ↦
      let below : x.score ≤ y.score = unfold ranked_before in ground arith in
      rw e (below, All-map_pointwise ys (λ (r : Ranked) l. omega (arith, l, below)) h)
]

pub sort-IsFirst : (xs : List Ranked) → IsFirst (sort ranked_before xs)
unfolding sort
sort-IsFirst [] = unfold IsFirst in tt
sort-IsFirst (x ∷ xs) = insert_sorted-IsFirst x (sort ranked_before xs) (sort-IsFirst xs)

-- A candidate that was given and satisfies the constraints, in its normal form, with its score.
pub record IsEligible (request : Request) (raws : List Candidate) (r : Ranked) : Type 0 where
  pub satisfied : satisfies request r.candidate ≡ true
  pub scored : r.score ≡ dominant_ppm r.candidate request.resources
  pub raw : Candidate
  pub given : OneOf (λ c. c ≡ raw) raws
  pub normal : normalize_candidate raw ≡ ok r.candidate

IsEligible-later :
    (request : Request) (raw : Candidate) (raws : List Candidate) (eligible : List Ranked)
    → All (IsEligible request raws) eligible
    → All (IsEligible request (raw ∷ raws)) eligible
IsEligible-later request raw raws eligible h =
    All-map_pointwise eligible
      (λ r e. record {
        satisfied = e.satisfied;
        scored = e.scored;
        raw = e.raw;
        given = inr e.given;
        normal = e.normal;
      })
      h

pub rank_candidates-IsEligible :
    (request : Request) (seen : List String) (raws : List Candidate) (eligible : List Ranked)
    → rank_candidates request seen raws ≡ ok eligible
    → All (IsEligible request raws) eligible
unfolding rank_candidates
rank_candidates-IsEligible request seen [] eligible h = rw (sym (ok-injective _ _ h)) tt
rank_candidates-IsEligible request seen (raw ∷ rest) eligible h =
    let (candidate, normal, r1) = >>=-eq-ok (normalize_candidate raw) _ _ h in
    let (u, first, r2) =
      >>=-eq-ok
        (reject (any (λ id. id =s candidate.node_id) seen) (invalid_plan "duplicate candidate")) _ _
        r1 in
    let (later, ranked, r3) =
      >>=-eq-ok (rank_candidates request (candidate.node_id ∷ seen) rest) _ _ r2 in
    let tail =
      IsEligible-later request raw rest later
        (rank_candidates-IsEligible request (candidate.node_id ∷ seen) rest later ranked) in
    rw (sym (ok-injective _ _ r3)) (elim (Bool-cases (satisfies request candidate)) [
      | inl e ↦ rw e (
        record { satisfied = e; scored = refl; raw = raw; given = inl refl; normal = normal },
        tail,
      )
      | inr e ↦ rw e tail
    ])

-- Each candidate that was given is well formed; it fails a constraint, or its score is not below `score`.
abbrev pub IsUnbeaten : Request → ℕ → Candidate → Type 0
IsUnbeaten request score raw =
    (c : Candidate) × (normalize_candidate raw ≡ ok c)
    × ((satisfies request c ≡ false) ⊎ (score ≤ dominant_ppm c request.resources))

pub rank_candidates-IsUnbeaten :
    (request : Request) (score : ℕ) (seen : List String) (raws : List Candidate)
    (eligible : List Ranked)
    → rank_candidates request seen raws ≡ ok eligible
    → All (λ (r : Ranked). score ≤ r.score) eligible
    → All (IsUnbeaten request score) raws
unfolding rank_candidates
rank_candidates-IsUnbeaten request score seen [] eligible h least = tt
rank_candidates-IsUnbeaten request score seen (raw ∷ rest) eligible h least =
    let (candidate, normal, r1) = >>=-eq-ok (normalize_candidate raw) _ _ h in
    let (u, first, r2) =
      >>=-eq-ok
        (reject (any (λ id. id =s candidate.node_id) seen) (invalid_plan "duplicate candidate")) _ _
        r1 in
    let (later, ranked, r3) =
      >>=-eq-ok (rank_candidates request (candidate.node_id ∷ seen) rest) _ _ r2 in
    let least' = rw (sym (ok-injective _ _ r3)) at least in
    elim (Bool-cases (satisfies request candidate)) [
      | inl e ↦
          let (below, others) = rw e at least' in
          (
            (candidate, normal, inr below),
            rank_candidates-IsUnbeaten request score (candidate.node_id ∷ seen) rest later ranked
                others,
          )
      | inr e ↦ (
        (candidate, normal, inl e),
        rank_candidates-IsUnbeaten request score (candidate.node_id ∷ seen) rest later ranked
            (rw e at least'),
      )
    ]

insert_sorted-All_back :
    (P : Ranked → Type 0) (x : Ranked) (ys : List Ranked)
    → All P (insert_sorted ranked_before x ys)
    → P x × All P ys
unfolding insert_sorted
insert_sorted-All_back P x [] h = h
insert_sorted-All_back P x (y ∷ ys) h = elim (Bool-cases (ranked_before y x)) [
  | inl e ↦
      let h' : P y × All P (insert_sorted ranked_before x ys) = rw e at h in
      let (px, rest) = insert_sorted-All_back P x ys h'.1 in (px, (h'.0, rest))
  | inr e ↦ rw e at h
]

pub sort-All_back :
    (P : Ranked → Type 0) (xs : List Ranked) → All P (sort ranked_before xs) → All P xs
unfolding sort
sort-All_back P [] h = h
sort-All_back P (x ∷ xs) h =
    let (px, rest) = insert_sorted-All_back P x (sort ranked_before xs) h in
    (px, sort-All_back P xs rest)
