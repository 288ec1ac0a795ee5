-- ===== src/Sync/Delivery.antt =====
-- For internal/sitesync/state.go: deliveries of the revisions of an object, in any order and with
-- repetitions.
use mathlib.Core.Path.{subst}
use control_center_developme.Prelude.{
  ℕ, Bool, true, ltb, ◌=s◌, =s_iff, =s_refl, Bool-cases, if◌then◌else◌, Result, ok, err, arith, ◌≡◌,
  refl, sym, ap, ◌∙◌, ◌≤◌, ◌⊎◌, inl, inr, All, List, [], ◌∷◌,
}
use control_center_developme.Sync.Records.{
  Authority, choose, Record, reconcile, unknown_kind, unknown_authority, same_authority, same_kind,
  StateKind, SyncError, validate_record,
}
use control_center_developme.Sync.Reconcile.{SameObject}

same_kind_refl : (k : StateKind) → same_kind k k ≡ true
same_kind_refl (unknown_kind k) = =s_refl k
same_kind_refl k = ground arith

same_authority_refl : (a : Authority) → same_authority a a ≡ true
same_authority_refl (unknown_authority a) = =s_refl a
same_authority_refl a = ground arith

-- The current record behind a delivery: a refused one changes nothing.
abbrev pub or_current : Record → Result SyncError (Record × Bool) → Record
or_current current (ok (next, changed)) = next
or_current current (err e) = current

-- Deliveries of records, one after the other.
unfoldable pub deliver : Record → List Record → Record
deliver current [] = current
deliver current (r ∷ rs) = deliver (or_current current (reconcile current r)) rs

-- The records of one object of which its authority issues one for each generation.
pub record IsIssued (log : ℕ → Record) (r : Record) : Type 0 where
  pub issued : r ≡ log r.generation
  pub valid : validate_record r ≡ ok tt
  pub object : SameObject (log 0) r

newest : Record → Record → Record
newest r s = if ltb r.generation s.generation then s else r

choose-newest :
    (log : ℕ → Record) (r s : Record)
    → IsIssued log r
    → IsIssued log s
    → or_current r (choose r s) ≡ newest r s
unfolding choose newest
choose-newest log r s i j = ground arith

reconcile-choose :
    (r s : Record)
    → validate_record r ≡ ok tt
    → validate_record s ≡ ok tt
    → (r.site_id =s s.site_id) ≡ true
    → (r.resource_id =s s.resource_id) ≡ true
    → same_kind r.kind s.kind ≡ true
    → same_authority r.authority s.authority ≡ true
    → reconcile r s ≡ choose r s
unfolding reconcile
reconcile-choose r s v w site resource kind authority =
    rw (v, w, site, resource, kind, authority) refl

reconcile-newest :
    (log : ℕ → Record) (r s : Record)
    → IsIssued log r
    → IsIssued log s
    → or_current r (reconcile r s) ≡ newest r s
reconcile-newest log r s i j =
    let kind : same_kind r.kind s.kind ≡ true =
      subst (λ (k : StateKind). same_kind r.kind k ≡ true) (sym i.object.kind ∙ j.object.kind)
        (same_kind_refl r.kind) in
    let authority : same_authority r.authority s.authority ≡ true =
      subst (λ (a : Authority). same_authority r.authority a ≡ true)
        (sym i.object.authority ∙ j.object.authority) (same_authority_refl r.authority) in
    ap (or_current r) (
      reconcile-choose r s i.valid j.valid
        ((=s_iff r.site_id s.site_id).1 (sym i.object.site ∙ j.object.site))
        ((=s_iff r.resource_id s.resource_id).1 (sym i.object.resource ∙ j.object.resource)) kind
        authority)
    ∙ choose-newest log r s i j

newest-IsIssued :
    (log : ℕ → Record) (r s : Record) → IsIssued log r → IsIssued log s → IsIssued log (newest r s)
unfolding newest
newest-IsIssued log r s i j = elim (Bool-cases (ltb r.generation s.generation)) [
  | inl e ↦ rw e j
  | inr e ↦ rw e i
]

issued_once :
    (log : ℕ → Record) (r s : Record)
    → IsIssued log r
    → IsIssued log s
    → r.generation ≡ s.generation
    → r ≡ s
issued_once log r s i j e = i.issued ∙ ap log e ∙ sym j.issued

-- The record is one of the list.
abbrev pub Among : Record → List Record → Type 0
Among r [] = ⊥
Among r (s ∷ ss) = (r ≡ s) ⊎ Among r ss

All-Among : (P : Record → Type 0) (r : Record) (ss : List Record) → All P ss → Among r ss → P r
All-Among P r [] h a = elim a [ ]
All-Among P r (s ∷ ss) h (inl e) = subst P (sym e) h.0
All-Among P r (s ∷ ss) h (inr a) = All-Among P r ss h.1 a

-- The record is the latest of the list.
pub record IsLatest (r : Record) (rs : List Record) : Type 0 where
  pub among : Among r rs
  pub latest : All (λ s. s.generation ≤ r.generation) rs

newest-le :
    (c r : Record)
    → (c.generation ≤ (newest c r).generation) × (r.generation ≤ (newest c r).generation)
unfolding newest
newest-le c r = ground arith

newest-cases : (c r : Record) → (newest c r ≡ r) ⊎ (newest c r ≡ c)
unfolding newest
newest-cases c r = ground arith

IsLatest-newest :
    (c r result : Record) (rs : List Record)
    → IsLatest result (newest c r ∷ rs)
    → IsLatest result (c ∷ r ∷ rs)
IsLatest-newest c r result rs l = record {
  among = elim l.among [
    | inl e ↦ elim (newest-cases c r) [ inl n ↦ inr (inl (e ∙ n)) | inr n ↦ inl (e ∙ n) ]
    | inr a ↦ inr (inr a)
  ];
  latest =
      let (up, over) = newest-le c r in
      (omega (arith, up, l.latest.0), (omega (arith, over, l.latest.0), l.latest.1));
}

-- Whatever revisions of an object are delivered behind a current one, one for each generation and
-- each of them valid, the record that is left is the latest of them all.
pub deliver-IsLatest :
    (log : ℕ → Record) (c : Record) (rs : List Record)
    → IsIssued log c
    → All (IsIssued log) rs
    → IsLatest (deliver c rs) (c ∷ rs)
unfolding deliver
deliver-IsLatest log c [] i h = record { among = inl refl; latest = (omega arith, tt) }
deliver-IsLatest log c (r ∷ rs) i h =
    let step = reconcile-newest log c r i h.0 in
    rw step (
      IsLatest-newest c r (deliver (newest c r) rs) rs
        (deliver-IsLatest log (newest c r) rs (newest-IsIssued log c r i h.0) h.1))

IsLatest-unique :
    (log : ℕ → Record) (r s : Record) (rs ss : List Record)
    → All (IsIssued log) rs
    → All (IsIssued log) ss
    → All (λ t. Among t ss) rs
    → All (λ t. Among t rs) ss
    → IsLatest r rs
    → IsLatest s ss
    → r ≡ s
IsLatest-unique log r s rs ss i j to fro l k =
    let r_in : Among r ss = All-Among (λ t. Among t ss) r rs to l.among in
    let s_in : Among s rs = All-Among (λ t. Among t rs) s ss fro k.among in
    let below : r.generation ≤ s.generation =
      All-Among (λ t. t.generation ≤ s.generation) r ss k.latest r_in in
    let above : s.generation ≤ r.generation =
      All-Among (λ t. t.generation ≤ r.generation) s rs l.latest s_in in
    issued_once log r s (All-Among (IsIssued log) r rs i l.among)
      (All-Among (IsIssued log) s ss j k.among) (omega (arith, below, above))

-- Two sides that have seen the same revisions of an object, one for each generation, in any order
-- and with any repetitions, are left with the same record.
pub deliver-converges :
    (log : ℕ → Record) (c d : Record) (rs ss : List Record)
    → All (IsIssued log) (c ∷ rs)
    → All (IsIssued log) (d ∷ ss)
    → All (λ t. Among t (d ∷ ss)) (c ∷ rs)
    → All (λ t. Among t (c ∷ rs)) (d ∷ ss)
    → deliver c rs ≡ deliver d ss
deliver-converges log c d rs ss i j to fro =
    IsLatest-unique log (deliver c rs) (deliver d ss) (c ∷ rs) (d ∷ ss) i j to fro
      (deliver-IsLatest log c rs i.0 i.1) (deliver-IsLatest log d ss j.0 j.1)
