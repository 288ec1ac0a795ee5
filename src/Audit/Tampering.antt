-- ===== src/Audit/Tampering.antt =====
-- For internal/identity/audit: two chains of events that end in the same hash.
use control_center_developme.Prelude.Hex.{is_hyphenated}
use control_center_developme.Prelude.{
  ℕ, suc, String, ◌≡◌, refl, sym, ap, ◌∙◌, inl, inr, true, false, Option, none, some, List, [], ◌∷◌,
  length, arith, ◌=s◌, =s_iff, Bool-cases, Option-cases, ok, err, Result, >>=-eq-ok, ◌||◌,
  ok-injective, All,
}
use control_center_developme.Audit.Types.{Event}
use control_center_developme.Audit.Log.{
  AuditError, AuditPlatform, hash_event, legacy_id, legacy_matches, verify, with_offset,
  inspect_loop, IntegrityReport, inspect_chain,
}

module _ (platform : AuditPlatform) where
  open platform use {event_digest}

  abbrev or_same : String → Option String → String
  or_same id none = id
  or_same id (some legacy) = legacy

  -- The id without the hyphens of a UUID, if it has them.
  abbrev pub compact_id : String → String
  compact_id id = or_same id (legacy_id platform id)

  -- What the hash of an event fixes: all of it but its own hash, and the id but for its hyphens.
  abbrev pub content : Event → Event
  content e = record e { id = compact_id e.id; hash = "" }

  legacy_id-legacy :
      (id legacy : String) → legacy_id platform id ≡ some legacy → legacy_id platform legacy ≡ none
  unfolding legacy_id is_hyphenated
  legacy_id-legacy id legacy h = ground arith

  -- The forms of an event that its hash may be taken of.
  abbrev pub FormsAre : (Event → Type 0) → Event → Type 0
  FormsAre P e =
      P (record e { hash = "" })
      × ((legacy : String)
          → legacy_id platform e.id ≡ some legacy
          → P (record e { id = legacy; hash = "" }))

  verify-parts :
      (e : Event) (previous : String) {u : Unit {0}}
      → verify platform e previous ≡ ok u
      → (e.previous_hash ≡ previous)
        × ((hash_event platform e =s e.hash || legacy_matches platform e (legacy_id platform e.id))
            ≡ true)
  unfolding verify
  verify-parts e previous h = (ground (arith, =s_iff e.previous_hash previous), ground arith)

  -- A form of an event that has the event's content and its hash.
  abbrev FormOf : (Event → Type 0) → Event → Type 0
  FormOf P e = (form : Event) × P form × (event_digest form ≡ e.hash) × (content form ≡ content e)

  legacy-form :
      (P : Event → Type 0) (e : Event)
      → FormsAre P e
      → legacy_matches platform e (legacy_id platform e.id) ≡ true
      → FormOf P e
  legacy-form P e forms h = elim (Option-cases (legacy_id platform e.id)) [
    | inl f ↦ absurd (cc (rw f at h))
    | inr (legacy, f) ↦ (
      record e { id = legacy; hash = "" },
      forms.1 legacy f,
      (=s_iff (hash_event platform (record e { id = legacy })) e.hash).0 (rw f at h),
      ap (λ id. record e { id = id; hash = "" })
          (ap (or_same legacy) (legacy_id-legacy e.id legacy f) ∙ sym (ap (or_same e.id) f)),
    )
  ]

  verify-content :
      (P : Event → Type 0) (e : Event) (previous : String) {u : Unit {0}}
      → FormsAre P e
      → verify platform e previous ≡ ok u
      → (e.previous_hash ≡ previous) × FormOf P e
  verify-content P e previous forms h =
      let (linked, matched) = verify-parts e previous h in
      (
        linked,
        elim (Bool-cases (hash_event platform e =s e.hash)) [
          | inl f ↦
              (record e { hash = "" }, forms.0, (=s_iff (hash_event platform e) e.hash).0 f, refl)
          | inr f ↦ legacy-form P e forms (rw f at matched)
        ],
      )

  with_offset-ok :
      (offset : ℕ) (r : Result AuditError (Unit {0})) {u : Unit {0}}
      → with_offset platform offset r ≡ ok u
      → r ≡ ok tt
  with_offset-ok offset (ok u) h = refl
  with_offset-ok offset (err e) h = absurd (cc h)

  -- The events of two lists have the same content, one by one.
  abbrev pub SameContent : List Event → List Event → Type 0
  SameContent [] [] = Unit
  SameContent (x ∷ xs) (y ∷ ys) = (content x ≡ content y) × SameContent xs ys
  SameContent _ _ = ⊥

  -- No two of the forms have the same digest.
  abbrev pub NoCollision : (Event → Type 0) → Type 0
  NoCollision P = (a b : Event) → P a → P b → event_digest a ≡ event_digest b → a ≡ b

  same_hash-content :
      (P : Event → Type 0) (x y : Event) (p q : String) {u v : Unit {0}}
      → NoCollision P
      → FormsAre P x
      → FormsAre P y
      → verify platform x p ≡ ok u
      → verify platform y q ≡ ok v
      → x.hash ≡ y.hash
      → (p ≡ q) × (content x ≡ content y)
  same_hash-content P x y p q free fx fy vx vy same =
      let (lx, form_of_x) = verify-content P x p fx vx in
      let (form_x, px, hx, cx) = form_of_x in
      let (ly, form_of_y) = verify-content P y q fy vy in
      let (form_y, py, hy, cy) = form_of_y in
      let contents : content x ≡ content y =
        sym cx ∙ ap content (free form_x form_y px py (hx ∙ same ∙ sym hy)) ∙ cy in
      (sym lx ∙ ap (λ (e : Event). e.previous_hash) contents ∙ ly, contents)

  inspect_loop-content :
      (P : Event → Type 0) (offset : ℕ) (p q head : String) (xs ys : List Event)
      → NoCollision P
      → All (FormsAre P) xs
      → All (FormsAre P) ys
      → length xs ≡ length ys
      → inspect_loop platform offset p xs ≡ ok head
      → inspect_loop platform offset q ys ≡ ok head
      → (p ≡ q) × SameContent xs ys
  unfolding inspect_loop
  inspect_loop-content P offset p q head [] [] free fx fy n hx hy =
      (ok-injective p q (hx ∙ sym hy), tt)
  inspect_loop-content P offset p q head [] (y ∷ ys) free fx fy n hx hy = absurd (omega (arith, n))
  inspect_loop-content P offset p q head (x ∷ xs) [] free fx fy n hx hy = absurd (omega (arith, n))
  inspect_loop-content P offset p q head (x ∷ xs) (y ∷ ys) free fx fy n hx hy =
      let (u, vx, rx) = >>=-eq-ok (with_offset platform offset (verify platform x p)) _ _ hx in
      let (v, vy, ry) = >>=-eq-ok (with_offset platform offset (verify platform y q)) _ _ hy in
      let (same, rest) =
        inspect_loop-content P (suc offset) x.hash y.hash head xs ys free fx.1 fy.1
          (omega (arith, n)) rx ry in
      let (linked, contents) =
        same_hash-content P x y p q free fx.0 fy.0 (with_offset-ok offset _ vx)
          (with_offset-ok offset _ vy) same in
      (linked, (contents, rest))

  -- Two logs for which InspectChain gives the same report have the same content, event by event:
  -- all of the events but the hyphens of their ids, if no two of the forms that the hashes are
  -- taken of have the same digest.
  pub inspect_chain-content :
      (P : Event → Type 0) (xs ys : List Event) (report : IntegrityReport)
      → NoCollision P
      → All (FormsAre P) xs
      → All (FormsAre P) ys
      → inspect_chain platform false xs ≡ ok report
      → inspect_chain platform false ys ≡ ok report
      → SameContent xs ys
  unfolding inspect_chain
  inspect_chain-content P xs ys report free fx fy hx hy =
      let (a, la, ra) = >>=-eq-ok (inspect_loop platform 0 "" xs) _ _ hx in
      let (b, lb, rb) = >>=-eq-ok (inspect_loop platform 0 "" ys) _ _ hy in
      let same = ok-injective _ _ (ra ∙ sym rb) in
      let heads : a ≡ b = ap (λ (r : IntegrityReport). r.head_hash) same in
      (inspect_loop-content P 0 "" "" b xs ys free fx fy
        (ap (λ (r : IntegrityReport). r.events_checked) same) (rw heads at la) lb).1
