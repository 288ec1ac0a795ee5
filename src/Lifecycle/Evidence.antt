-- ===== src/Lifecycle/Evidence.antt =====
-- For internal/nodelifecycle/lifecycle.go: the loops over the evidence of a transition.
use control_center_developme.Prelude.{
  ◌≡◌, refl, sym, ◌↔◌, ◌⊎◌, inl, inr, true, false, arith, List, [], ◌∷◌, All, any, =s_iff, =s_refl,
  Bool-cases, ok, >>=-eq-ok, All-map_pointwise,
}
use control_center_developme.Lifecycle.States.{EvidenceCheck, valid_check, same_check, check_text}
use control_center_developme.Lifecycle.Validation.{collect_passed, all_passed, validate_evidence}

-- Membership, as an equation with some element.
abbrev pub In : EvidenceCheck → List EvidenceCheck → Type 0
In c [] = ⊥
In c (d ∷ ds) = (c ≡ d) ⊎ In c ds

-- No check stands twice.
abbrev pub Distinct : List EvidenceCheck → Type 0
Distinct [] = Unit
Distinct (c ∷ cs) = ¬ In c cs × Distinct cs

-- The evidence consists of supported checks, each once, and covers what is required.
pub record Covers (evidence required : List EvidenceCheck) : Type 0 where
  pub supported : All (λ c. valid_check c ≡ true) evidence
  pub distinct : Distinct evidence
  pub covered : All (λ c. In c evidence) required

same_check-eq : (a b : EvidenceCheck) → same_check a b ≡ true → a ≡ b
unfolding same_check
same_check-eq a b h = ground (arith, =s_iff (check_text a) (check_text b))

same_check_refl : (a : EvidenceCheck) → same_check a a ≡ true
unfolding same_check
same_check_refl a = ground (arith, =s_refl (check_text a))

any-In : (c : EvidenceCheck) (cs : List EvidenceCheck) → any (same_check c) cs ≡ true → In c cs
unfolding any
any-In c [] h = absurd (cc)
any-In c (d ∷ ds) h = elim (Bool-cases (same_check c d)) [
  | inl e ↦ inl (same_check-eq c d e)
  | inr e ↦ inr (any-In c ds (rw e at h))
]

In-any : (c : EvidenceCheck) (cs : List EvidenceCheck) → In c cs → any (same_check c) cs ≡ true
unfolding any
In-any c [] i = elim i [ ]
In-any c (d ∷ ds) (inl e) = rw (← e, same_check_refl c)
In-any c (d ∷ ds) (inr i) = elim (Bool-cases (same_check c d)) [
  | inl e ↦ rw e
  | inr e ↦ rw e (In-any c ds i)
]

not-In : (c : EvidenceCheck) (cs : List EvidenceCheck) → any (same_check c) cs ≡ false → ¬ In c cs
not-In c cs h i = cc (In-any c cs i)

not-any : (c : EvidenceCheck) (cs : List EvidenceCheck) → ¬ In c cs → any (same_check c) cs ≡ false
not-any c cs n = elim (Bool-cases (any (same_check c) cs)) [
  | inl e ↦ absurd (n (any-In c cs e))
  | inr e ↦ e
]

-- What the first loop has passed when it ends: the checks, in front of what it began with.
abbrev rev_onto : List EvidenceCheck → List EvidenceCheck → List EvidenceCheck
rev_onto passed [] = passed
rev_onto passed (c ∷ cs) = rev_onto (c ∷ passed) cs

In-rev_onto :
    (c : EvidenceCheck) (passed cs : List EvidenceCheck)
    → In c (rev_onto passed cs) ↔ (In c passed ⊎ In c cs)
In-rev_onto c passed [] = (λ i. inl i, λ s. elim s [ inl i ↦ i | inr i ↦ absurd i ])
In-rev_onto c passed (d ∷ ds) = (
  λ i. elim ((In-rev_onto c (d ∷ passed) ds).0 i) [
    | inl s ↦ elim s [ inl e ↦ inr (inl e) | inr j ↦ inl j ]
    | inr j ↦ inr (inr j)
  ],
  λ s.
      (In-rev_onto c (d ∷ passed) ds).1
        (elim s [ inl j ↦ inl (inr j) | inr t ↦ elim t [ inl e ↦ inl (inl e) | inr j ↦ inr j ] ]),
)

-- The first loop, from the checks that it has passed: the rest is supported, distinct, and new.
record Fresh (passed checks : List EvidenceCheck) : Type 0 where
  supported : All (λ c. valid_check c ≡ true) checks
  distinct : Distinct checks
  fresh : All (λ c. ¬ In c passed) checks

fresh-absent :
    (c : EvidenceCheck) (passed cs : List EvidenceCheck)
    → All (λ d. ¬ In d (c ∷ passed)) cs
    → ¬ In c cs
fresh-absent c passed [] h i = i
fresh-absent c passed (d ∷ ds) h (inl e) = h.0 (inl (sym e))
fresh-absent c passed (d ∷ ds) h (inr i) = fresh-absent c passed ds h.1 i

absent-fresh :
    (c : EvidenceCheck) (passed cs : List EvidenceCheck)
    → ¬ In c cs
    → All (λ d. ¬ In d passed) cs
    → All (λ d. ¬ In d (c ∷ passed)) cs
absent-fresh c passed [] n h = tt
absent-fresh c passed (d ∷ ds) n h = (
  λ i. elim i [ inl e ↦ n (inl (sym e)) | inr j ↦ h.0 j ],
  absent-fresh c passed ds (λ i. n (inr i)) h.1,
)

-- One round of the loop that did not fail.
collect_passed-step :
    (passed : List EvidenceCheck) (c : EvidenceCheck) (cs result : List EvidenceCheck)
    → collect_passed passed (c ∷ cs) ≡ ok result
    → (valid_check c ≡ true)
      × (any (same_check c) passed ≡ false)
      × (collect_passed (c ∷ passed) cs ≡ ok result)
unfolding collect_passed
collect_passed-step passed c cs result h = ground arith

collect_passed-Fresh :
    (passed checks result : List EvidenceCheck)
    → collect_passed passed checks ≡ ok result
    → Fresh passed checks × (result ≡ rev_onto passed checks)
collect_passed-Fresh passed [] result h =
    (record { supported = tt; distinct = tt; fresh = tt }, unfold collect_passed in ground arith)
collect_passed-Fresh passed (c ∷ cs) result h =
    let (valid, new, rest) = collect_passed-step passed c cs result h in
    let (f, e) = collect_passed-Fresh (c ∷ passed) cs result rest in
    (
      record {
        supported = (valid, f.supported);
        distinct = (fresh-absent c passed cs f.fresh, f.distinct);
        fresh = (not-In c passed new, All-map_pointwise cs (λ d n i. n (inr i)) f.fresh);
      },
      e,
    )

Fresh-collect_passed :
    (passed checks : List EvidenceCheck)
    → Fresh passed checks
    → collect_passed passed checks ≡ ok (rev_onto passed checks)
unfolding collect_passed
Fresh-collect_passed passed [] f = refl
Fresh-collect_passed passed (c ∷ cs) f =
    rw (f.supported.0, not-any c passed f.fresh.0)
      (Fresh-collect_passed (c ∷ passed) cs (record {
        supported = f.supported.1;
        distinct = f.distinct.1;
        fresh = absent-fresh c passed cs f.distinct.0 f.fresh.1;
      }))

all_passed-In :
    (passed required : List EvidenceCheck)
    → (all_passed passed required ≡ ok tt) ↔ All (λ c. In c passed) required
unfolding all_passed
all_passed-In passed [] = (λ h. tt, λ h. refl)
all_passed-In passed (c ∷ cs) = elim (Bool-cases (any (same_check c) passed)) [
  | inl e ↦ rw e (
    λ h. (any-In c passed e, (all_passed-In passed cs).0 h),
    λ h. (all_passed-In passed cs).1 h.1,
  )
  | inr e ↦ rw e (λ h. absurd (cc), λ h. absurd (not-In c passed e h.0))
]

In-rev_onto_nil : (c : EvidenceCheck) (cs : List EvidenceCheck) → In c (rev_onto [] cs) ↔ In c cs
In-rev_onto_nil c cs = (
  λ i. elim ((In-rev_onto c [] cs).0 i) [ inl j ↦ absurd j | inr j ↦ j ],
  λ i. (In-rev_onto c [] cs).1 (inr i),
)

validate_evidence_sound :
    (evidence required result : List EvidenceCheck)
    → collect_passed [] evidence ≡ ok result
    → all_passed result required ≡ ok tt
    → Covers evidence required
validate_evidence_sound evidence required result h k =
    let (f, e) = collect_passed-Fresh [] evidence result h in
    record {
      supported = f.supported;
      distinct = f.distinct;
      covered =
          All-map_pointwise required (λ c i. (In-rev_onto_nil c evidence).0 i)
            ((all_passed-In (rev_onto [] evidence) required).0 (rw e at k));
    }

-- The evidence of a transition is accepted exactly if every check of it is supported, no check
-- stands in it twice, and every required check is among it.
pub validate_evidence-Covers :
    (evidence required : List EvidenceCheck)
    → (validate_evidence evidence required ≡ ok tt) ↔ Covers evidence required
unfolding validate_evidence
validate_evidence-Covers evidence required = (
  λ h.
      (let (result, e, k) =
          >>=-eq-ok (collect_passed [] evidence) (λ passed. all_passed passed required) tt h in
        validate_evidence_sound evidence required result e k),
  λ v.
      rw
        (Fresh-collect_passed [] evidence (record {
          supported = v.supported;
          distinct = v.distinct;
          fresh = All-map_pointwise evidence (λ c s i. i) v.supported;
        }))
        ((all_passed-In (rev_onto [] evidence) required).1
          (All-map_pointwise required (λ c i. (In-rev_onto_nil c evidence).1 i) v.covered)),
)
