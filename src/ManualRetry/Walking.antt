-- ===== src/ManualRetry/Walking.antt =====
-- For internal/orchestration/job/manual_retry_history.go: the walk along a chain of retries.
use control_center_developme.Prelude.{
  ℕ, zero, suc, ◌+◌, ◌≤◌, ◌<◌, String, ◌≡◌, ◌≢◌, refl, sym, inl, inr, false, Option, none, some,
  List, [], ◌∷◌, any, arith, ◌=s◌, =s_iff, if◌then◌else◌, Bool-cases, Option-cases, Result, ok, err,
  Store, find, size, All, All-map_pointwise,
}
use control_center_developme.ManualRetry.Requests.{RetryError, invalid_history, ManualRetryLineage}
use control_center_developme.ManualRetry.History.{seen, followed, walk}

-- The number of entries whose key is not visited.
unvisited : List String → Store ManualRetryLineage → ℕ
unvisited visited [] = 0
unvisited visited ((k, item) ∷ m) =
    let rest : ℕ = unvisited visited m in if seen k visited then rest else rest + 1

unvisited-visit :
    (c : String) (visited : List String) (m : Store ManualRetryLineage)
    → unvisited (c ∷ visited) m ≤ unvisited visited m
unfolding unvisited any
unvisited-visit c visited [] = omega arith
unvisited-visit c visited ((k, item) ∷ m) = ground (arith, unvisited-visit c visited m)

unvisited-new :
    (c : String) (visited : List String) (m : Store ManualRetryLineage) (item : ManualRetryLineage)
    → seen c visited ≡ false
    → find c m ≡ some item
    → unvisited (c ∷ visited) m < unvisited visited m
unfolding unvisited any find
unvisited-new c visited [] item new h = absurd (cc h)
unvisited-new c visited ((k, other) ∷ m) item new h = elim (Bool-cases (k =s c)) [
  | inl e ↦ ground (arith, (=s_iff k c).0 e, =s_iff c k, unvisited-visit c visited m)
  | inr e ↦
      let rest = unvisited-new c visited m item new (rw e at h) in
      ground (arith, =s_iff c k, =s_iff k c, rest)
]

unvisited-size :
    (visited : List String) (m : Store ManualRetryLineage) → unvisited visited m ≤ size m
unfolding unvisited size
unvisited-size visited [] = omega arith
unvisited-size visited ((k, item) ∷ m) = ground (arith, unvisited-size visited m)

followed-settles :
    (item : ManualRetryLineage) (o : Option (Result RetryError (List ManualRetryLineage)))
    (r : Result RetryError (List ManualRetryLineage))
    → o ≡ some r
    → (r' : Result RetryError (List ManualRetryLineage)) × (followed item o ≡ some r')
followed-settles item o (ok entries) h = (ok (item ∷ entries), rw h refl)
followed-settles item o (err e) h = (err e, rw h refl)

walk_from-settles :
    (fuel : ℕ) (m : Store ManualRetryLineage) (visited : List String) (cursor : String)
    → unvisited visited m < fuel
    → (r : Result RetryError (List ManualRetryLineage)) × (walk fuel m visited cursor ≡ some r)
unfolding walk
walk_from-settles zero m visited cursor h = absurd (omega (arith, h))
walk_from-settles (suc fuel) m visited cursor h = elim (Bool-cases (seen cursor visited)) [
  | inl e ↦ (err (invalid_history "retry lineage cycle detected"), rw (e, walk) refl)
  | inr e ↦ elim (Option-cases (find cursor m)) [
    | inl f ↦ (ok [], rw (e, walk, f) refl)
    | inr (item, f) ↦
        let fewer = unvisited-new cursor visited m item e f in
        let (r, settles) =
          walk_from-settles fuel m (cursor ∷ visited) item.retry_job_id (omega (arith, fewer, h)) in
        let (r', done) =
          followed-settles item (walk fuel m (cursor ∷ visited) item.retry_job_id) r settles in
        (r', rw (e, walk, f) done)
  ]
]

-- The walk along the retries of any index from any job comes to an end within one step more than
-- the index has entries, with the chain or with an error.
pub walk-settles :
    (m : Store ManualRetryLineage) (root : String)
    → (r : Result RetryError (List ManualRetryLineage)) × (walk (suc (size m)) m [] root ≡ some r)
walk-settles m root =
    walk_from-settles (suc (size m)) m [] root (omega (arith, unvisited-size [] m))

other_source : (c k : String) (visited : List String) → seen k (c ∷ visited) ≡ false → k ≢ c
unfolding any
other_source c k visited h p = absurd (ground (arith, (=s_iff c k).1 (sym p)))

unseen :
    (c k : String) (visited : List String) → seen k (c ∷ visited) ≡ false → seen k visited ≡ false
unfolding any
unseen c k visited h = ground arith

-- The entries are the chain of the retries from a job: each is the entry of its source, the next is
-- that of its retry, and behind the last there is none.
abbrev pub IsPath : Store ManualRetryLineage → String → List ManualRetryLineage → Type 0
IsPath m cursor [] = find cursor m ≡ none
IsPath m cursor (item ∷ rest) = (find cursor m ≡ some item) × IsPath m item.retry_job_id rest

followed-ok :
    (item : ManualRetryLineage) (o : Option (Result RetryError (List ManualRetryLineage)))
    (entries : List ManualRetryLineage)
    → followed item o ≡ some (ok entries)
    → (rest : List ManualRetryLineage) × (entries ≡ item ∷ rest) × (o ≡ some (ok rest))
followed-ok item none entries h = absurd (cc h)
followed-ok item (some (err e)) entries h = absurd (cc h)
followed-ok item (some (ok rest)) entries h = (rest, cc h, refl)

pub walk-IsPath :
    (fuel : ℕ) (m : Store ManualRetryLineage) (visited : List String) (cursor : String)
    (entries : List ManualRetryLineage)
    → walk fuel m visited cursor ≡ some (ok entries)
    → IsPath m cursor entries
unfolding walk
walk-IsPath zero m visited cursor entries h = absurd (cc h)
walk-IsPath (suc fuel) m visited cursor entries h = elim (Bool-cases (seen cursor visited)) [
  | inl e ↦ absurd (cc (rw (e, walk) at h))
  | inr e ↦ elim (Option-cases (find cursor m)) [
    | inl f ↦ let done : [] ≡ entries = cc (rw (e, walk, f) at h) in rw (sym done) f
    | inr (item, f) ↦
        let (rest, same, later) =
          followed-ok item (walk fuel m (cursor ∷ visited) item.retry_job_id) entries
            (rw (e, walk, f) at h) in
        rw same (f, walk-IsPath fuel m (cursor ∷ visited) item.retry_job_id rest later)
  ]
]

-- The entries retry different jobs, none of them visited.
abbrev pub Apart : List ManualRetryLineage → Type 0
Apart [] = Unit
Apart (item ∷ rest) =
    All (λ (e : ManualRetryLineage). e.source_job_id ≢ item.source_job_id) rest × Apart rest

-- An index whose entries stand under their sources.
abbrev pub IsKeyed : Store ManualRetryLineage → Type 0
IsKeyed m = (k : String) (item : ManualRetryLineage) → find k m ≡ some item → item.source_job_id ≡ k

pub walk-Fresh :
    (fuel : ℕ) (m : Store ManualRetryLineage) (visited : List String) (cursor : String)
    (entries : List ManualRetryLineage)
    → IsKeyed m
    → walk fuel m visited cursor ≡ some (ok entries)
    → Apart entries × All (λ (e : ManualRetryLineage). seen e.source_job_id visited ≡ false) entries
unfolding walk
walk-Fresh zero m visited cursor entries keyed h = absurd (cc h)
walk-Fresh (suc fuel) m visited cursor entries keyed h = elim (Bool-cases (seen cursor visited)) [
  | inl e ↦ absurd (cc (rw (e, walk) at h))
  | inr e ↦ elim (Option-cases (find cursor m)) [
    | inl f ↦ let done : [] ≡ entries = cc (rw (e, walk, f) at h) in rw (sym done) (tt, tt)
    | inr (item, f) ↦
        let (rest, same, later) =
          followed-ok item (walk fuel m (cursor ∷ visited) item.retry_job_id) entries
            (rw (e, walk, f) at h) in
        let (apart, fresh) =
          walk-Fresh fuel m (cursor ∷ visited) item.retry_job_id rest keyed later in
        let here : item.source_job_id ≡ cursor = keyed cursor item f in
        rw (same, here)
          (
            (
              All-map_pointwise rest (λ x n. other_source cursor x.source_job_id visited n) fresh,
              apart,
            ),
            (e, All-map_pointwise rest (λ x n. unseen cursor x.source_job_id visited n) fresh),
          )
  ]
]
