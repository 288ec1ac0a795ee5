-- ===== src/ManualRetry/Accepting.antt =====
-- For internal/orchestration/job/manual_retry_history.go: the histories that are accepted.
use control_center_developme.Prelude.{
  ℕ, suc, ◌≤◌, String, ◌≡◌, ◌≢◌, refl, sym, ap, ◌∙◌, ok-injective, ◌⊎◌, inl, inr, Option, none,
  some, List, [], ◌∷◌, length, arith, ◌=s◌, =s_iff, Bool-cases, Result, ok, >>=-eq-ok, Store, find,
  put, find-put, size, All,
}
use mathlib.Core.List.{Perm}
use control_center_developme.Prelude.Lists.{OneOf}
use mathlib.Core.List.Perm
use control_center_developme.Job.Types.{Job}
use control_center_developme.ManualRetry.Requests.{
  validate_retry_identifier, RetryError, ManualRetryLineage,
}
use control_center_developme.ManualRetry.History.{
  LineageReader, HistoryEvidence, history_root, index_lineage, walk, settled, chain_entries,
  build_history, check_source, bounded_lineage,
}
use control_center_developme.ManualRetry.Walking.{IsPath, walk-IsPath, Apart, walk-Fresh}

-- An element of a list is taken out of it.
take_out :
    (x : ManualRetryLineage) (ys : List ManualRetryLineage)
    → OneOf (λ l. l ≡ x) ys
    → (rest : List ManualRetryLineage) × Perm (x ∷ rest) ys
      × (length ys ≡ suc (length rest))
      × ((z : ManualRetryLineage) → OneOf (λ l. l ≡ z) ys → (z ≡ x) ⊎ OneOf (λ l. l ≡ z) rest)
take_out x [] o = absurd o
take_out x (y ∷ ys) (inl p) = (
  ys,
  rw p (Perm.refl (x ∷ ys)),
  refl,
  λ z o. elim o [ inl q ↦ inl (sym q ∙ p) | inr later ↦ inr later ],
)
take_out x (y ∷ ys) (inr o) =
    let (rest, same, counted, found) = take_out x ys o in
    (
      y ∷ rest,
      Perm.trans (Perm.swap y x rest) (Perm.cons y same),
      ap suc counted,
      λ z o'. elim o' [
        | inl q ↦ inr (inl q)
        | inr later ↦ elim (found z later) [ inl q ↦ inl q | inr l ↦ inr (inr l) ]
      ],
    )

-- What is left of a list behind an entry that the others are apart from.
left_in :
    (x : ManualRetryLineage) (xs ys rest : List ManualRetryLineage)
    → ((z : ManualRetryLineage) → OneOf (λ l. l ≡ z) ys → (z ≡ x) ⊎ OneOf (λ l. l ≡ z) rest)
    → All (λ (e : ManualRetryLineage). e.source_job_id ≢ x.source_job_id) xs
    → All (λ e. OneOf (λ l. l ≡ e) ys) xs
    → All (λ e. OneOf (λ l. l ≡ e) rest) xs
left_in x [] ys rest found apart within = tt
left_in x (e ∷ es) ys rest found apart within = (
  elim (found e within.0) [
    | inl p ↦ absurd (apart.0 (ap (λ (l : ManualRetryLineage). l.source_job_id) p))
    | inr o ↦ o
  ],
  left_in x es ys rest found apart.1 within.1,
)

-- Entries that retry different jobs, all from a list that is no longer, are that list in some order.
Apart-perm :
    (xs ys : List ManualRetryLineage)
    → Apart xs
    → All (λ e. OneOf (λ l. l ≡ e) ys) xs
    → length ys ≤ length xs
    → Perm xs ys
Apart-perm [] [] apart within bound = Perm.refl []
Apart-perm [] (y ∷ ys) apart within bound = absurd (omega (arith, bound))
Apart-perm (x ∷ xs) ys apart within bound =
    let (rest, same, counted, found) = take_out x ys within.0 in
    Perm.trans
      (Perm.cons x (
        Apart-perm xs rest apart.1 (left_in x xs ys rest found apart.0 within.1)
          (omega (arith, bound, counted))))
      same

-- Every entry stands under its source, in the order of the list, and no source has two.
index_lineage-keyed :
    (root : String) (lineage : List ManualRetryLineage) (m m' : Store ManualRetryLineage)
    → ((k : String) (item : ManualRetryLineage) → find k m ≡ some item → item.source_job_id ≡ k)
    → index_lineage root lineage m ≡ ok m'
    → (k : String) (item : ManualRetryLineage) → find k m' ≡ some item
    → item.source_job_id ≡ k
unfolding index_lineage
index_lineage-keyed root [] m m' keyed h k item f = keyed k item (rw (ok-injective m m' h) f)
index_lineage-keyed root (new ∷ rest) m m' keyed h k item f =
    index_lineage-keyed root rest (put new.source_job_id new m) m'
      (λ j old e.
        ground (arith, find-put new.source_job_id j new m, =s_iff new.source_job_id j, keyed j old))
      (ground arith) k item f

nothing_found : (k : String) (item : ManualRetryLineage) → find k [] ≡ some item → ⊥
unfolding find
nothing_found k item e = cc e

-- Every entry of the index is one of the list.
index_lineage-OneOf :
    (root : String) (lineage : List ManualRetryLineage) (m m' : Store ManualRetryLineage)
    (all : List ManualRetryLineage)
    → ((k : String) (item : ManualRetryLineage) → find k m ≡ some item → OneOf (λ l. l ≡ item) all)
    → ((x : ManualRetryLineage) → OneOf (λ l. l ≡ x) lineage → OneOf (λ l. l ≡ x) all)
    → index_lineage root lineage m ≡ ok m'
    → (k : String) (item : ManualRetryLineage) → find k m' ≡ some item
    → OneOf (λ l. l ≡ item) all
unfolding index_lineage
index_lineage-OneOf root [] m m' all known within h k item f =
    known k item (rw (ok-injective m m' h) f)
index_lineage-OneOf root (new ∷ rest) m m' all known within h k item f =
    index_lineage-OneOf root rest (put new.source_job_id new m) m' all
      (λ j old e. elim (Bool-cases (new.source_job_id =s j)) [
        | inl same ↦
            let is_new : new ≡ old = ground (arith, find-put new.source_job_id j new m, e, same) in
            within old (inl is_new)
        | inr other ↦ known j old (ground (arith, find-put new.source_job_id j new m, e, other))
      ])
      (λ x o. within x (inr o)) (ground arith) k item f

IsPath-All :
    (m : Store ManualRetryLineage) (all : List ManualRetryLineage)
    → ((k : String) (item : ManualRetryLineage) → find k m ≡ some item → OneOf (λ l. l ≡ item) all)
    → (cursor : String) (entries : List ManualRetryLineage) → IsPath m cursor entries
    → All (λ e. OneOf (λ l. l ≡ e) all) entries
IsPath-All m all known cursor [] path = tt
IsPath-All m all known cursor (item ∷ rest) path =
    (known cursor item path.0, IsPath-All m all known item.retry_job_id rest path.1)

nothing_keyed :
    (k : String) (item : ManualRetryLineage) → find k [] ≡ some item → item.source_job_id ≡ k
unfolding find
nothing_keyed k item e = absurd (cc e)

-- A chain in which each entry retries the job that the entry before it made.
abbrev pub IsChain : String → List ManualRetryLineage → Type 0
IsChain cursor [] = Unit
IsChain cursor (item ∷ rest) = (item.source_job_id ≡ cursor) × IsChain item.retry_job_id rest

IsPath-IsChain :
    (m : Store ManualRetryLineage)
    → ((k : String) (item : ManualRetryLineage) → find k m ≡ some item → item.source_job_id ≡ k)
    → (cursor : String) (entries : List ManualRetryLineage) → IsPath m cursor entries
    → IsChain cursor entries
IsPath-IsChain m keyed cursor [] path = tt
IsPath-IsChain m keyed cursor (item ∷ rest) path =
    (keyed cursor item path.0, IsPath-IsChain m keyed item.retry_job_id rest path.1)

-- What an accepted history is: the whole lineage of its root, as one chain.
pub record IsHistory (history_digest : String → List ManualRetryLineage → String)
    (reader : LineageReader) (source : Job) (evidence : HistoryEvidence) : Type 0 where
  pub rooted : history_root source.id (reader.by_retry_job source.id) ≡ ok evidence.root_job_id
  pub lineage : List ManualRetryLineage
  pub listed : reader.listing evidence.root_job_id ≡ ok lineage
  pub entries : List ManualRetryLineage
  pub chain : IsChain evidence.root_job_id entries
  pub whole : Perm entries lineage
  pub used : evidence.used_manual_retries ≡ length lineage
  pub within : length lineage ≤ 64
  pub digested : evidence.digest ≡ history_digest evidence.root_job_id entries

settled-ok :
    (o : Option (Result RetryError (List ManualRetryLineage))) (entries : List ManualRetryLineage)
    → settled o ≡ ok entries
    → o ≡ some (ok entries)
settled-ok none entries h = absurd (cc h)
settled-ok (some r) entries h = rw h refl

chain_entries-parts :
    (root : String) (lineage : List ManualRetryLineage) (m : Store ManualRetryLineage)
    (entries : List ManualRetryLineage)
    → chain_entries root lineage m ≡ ok entries
    → (walk (suc (size m)) m [] root ≡ some (ok entries)) × (length entries ≡ length lineage)
unfolding chain_entries
chain_entries-parts root lineage m entries h =
    let (walked, settles, rest) = >>=-eq-ok (settled (walk (suc (size m)) m [] root)) _ entries h in
    let same : walked ≡ entries = ground arith in
    let counted : length walked ≡ length lineage = ground arith in
    (
      settled-ok (walk (suc (size m)) m [] root) entries (settles ∙ ap ok same),
      rw (sym same) counted,
    )

bounded_lineage-parts :
    (reader : LineageReader) (root : String) (lineage : List ManualRetryLineage)
    → bounded_lineage reader root ≡ ok lineage
    → (reader.listing root ≡ ok lineage) × (length lineage ≤ 64)
unfolding bounded_lineage
bounded_lineage-parts reader root lineage h =
    let (u, named, rest) = >>=-eq-ok (validate_retry_identifier "root job id" root) _ _ h in
    let (listed, e, bound) = >>=-eq-ok (reader.listing root) _ _ rest in
    let same : listed ≡ lineage = ground arith in
    let within : length listed ≤ 64 = ground arith in (e ∙ ap ok same, rw (sym same) within)

-- A history that is accepted is the whole lineage, of at most 64 entries, that the reader lists for
-- the root of the job: its entries are a rearrangement of that list, and one chain from the root,
-- each the retry of the job that the one before it made. The evidence counts them all and carries
-- the digest of that chain.
pub build_history-IsHistory :
    (history_digest : String → List ManualRetryLineage → String) (reader : LineageReader)
    (source : Job) (observed_at : ℕ) (evidence : HistoryEvidence)
    → build_history history_digest reader source observed_at ≡ ok evidence
    → IsHistory history_digest reader source evidence
unfolding build_history
build_history-IsHistory history_digest reader source observed_at evidence h =
    let (u, checked, r1) = >>=-eq-ok (check_source source observed_at) _ _ h in
    let (root, rooted, r2) =
      >>=-eq-ok (history_root source.id (reader.by_retry_job source.id)) _ _ r1 in
    let (lineage, bounded, r3) = >>=-eq-ok (bounded_lineage reader root) _ _ r2 in
    let (m, indexed, r4) = >>=-eq-ok (index_lineage root lineage []) _ _ r3 in
    let (entries, walked, r5) = >>=-eq-ok (chain_entries root lineage m) _ _ r4 in
    let made = ok-injective _ _ r5 in
    let (path, counted) = chain_entries-parts root lineage m entries walked in
    let keyed = index_lineage-keyed root lineage [] m nothing_keyed indexed in
    let fresh = walk-Fresh (suc (size m)) m [] root entries keyed path in
    let steps = walk-IsPath (suc (size m)) m [] root entries path in
    let listed_entries =
      IsPath-All m lineage
        (index_lineage-OneOf root lineage [] m lineage (λ k item e. absurd (nothing_found k item e))
          (λ x o. o) indexed)
        root entries steps in
    let (listed, within) = bounded_lineage-parts reader root lineage bounded in
    rw (sym made) (record {
      rooted = rooted;
      lineage = lineage;
      listed = listed;
      entries = entries;
      chain = IsPath-IsChain m keyed root entries steps;
      whole = Apart-perm entries lineage fresh.0 listed_entries (omega (arith, counted));
      used = counted;
      within = within;
      digested = refl;
    })
