-- ===== src/Approval/Quorum.antt =====
-- For internal/orchestration/policy/policy.go: the approvals that CheckApprovals counts.
use control_center_developme.Prelude.Ints.{pos}
use control_center_developme.Prelude.Sort.{sort, sort-All}
use control_center_developme.Prelude.Text.{trim_space}
use control_center_developme.Prelude.{
  any, if◌then◌else◌, List, ok, inl, inr, ◌⊎◌, ◌≡◌, ◌≤◌, ◌<◌, refl, sym, ap, arith, Bool-cases, All,
  All-map_pointwise, length, String, true, false, Bool, ℕ, ◌=s◌, =s_iff, ◌∷◌, [], ◌≢◌,
}
use control_center_developme.Approval.Policy.{
  Approval, ApprovalRequirement, check_approvals, contains, count_approvals, is_duplicate,
  is_skipped, lacks_permission, mark, search, string_less,
}

-- The approval is dated, its actor has a name, is not the requester where that is prohibited, and
-- holds the permission, if one is required.
pub record IsFit (requester : String) (requirement : ApprovalRequirement) (a : Approval)
    : Type 0 where
  pub named : a.actor ≢ ""
  pub dated : 0 < a.approved_at
  pub other : requirement.prohibit_requester ≡ true → a.actor ≢ requester
  pub permitted :
      requirement.permission ≢ "" → any (λ p. p =s requirement.permission) a.permissions ≡ true

-- The approval is one of these.
abbrev pub Among : Approval → List Approval → Type 0
Among a [] = ⊥
Among a (b ∷ bs) = (a ≡ b) ⊎ Among a bs

abbrev pub is_actor_of : List Approval → String → Bool
is_actor_of approvals actor = any (λ (a : Approval). a.actor =s actor) approvals

-- No actor stands twice.
abbrev pub HasDistinctActors : List Approval → Type 0
HasDistinctActors [] = Unit
HasDistinctActors (a ∷ rest) =
    (All (λ (b : Approval). b.actor ≢ a.actor) rest) × HasDistinctActors rest

-- The approvals that the loop counts.
counted : String → ApprovalRequirement → List String → List Approval → List Approval
counted requester requirement seen [] = []
counted requester requirement seen (a ∷ rest) =
    let skipping = counted requester requirement seen rest in
    let marking = counted requester requirement (mark requirement seen a) rest in
    if is_skipped requester requirement a
    then skipping
    else if is_duplicate requirement seen a
    then skipping
    else if lacks_permission requirement a
    then marking
    else a ∷ marking

length-counted :
    (requester : String) (requirement : ApprovalRequirement) (seen : List String)
    (approvals : List Approval)
    → length (counted requester requirement seen approvals)
      ≡ count_approvals requester requirement seen approvals
unfolding counted count_approvals
length-counted requester requirement seen [] = refl
length-counted requester requirement seen (a ∷ rest) =
    let one = length-counted requester requirement seen rest in
    let two = length-counted requester requirement (mark requirement seen a) rest in ground arith

-- A value that no element equals is not found in the sorted copy.
search_none :
    (wanted : String) (values : List String)
    → All (λ v. (v =s wanted) ≡ false) values
    → search wanted values ≡ false
unfolding search
search_none wanted [] h = refl
search_none wanted (v ∷ values) h =
    let rest = search_none wanted values h.1 in let first = h.0 in ground arith

any_none :
    (wanted : String) (values : List String)
    → any (λ v. v =s wanted) values ≡ false
    → All (λ v. (v =s wanted) ≡ false) values
unfolding any
any_none wanted [] h = tt
any_none wanted (v ∷ values) h = (ground arith, any_none wanted values (ground arith))

contains-any :
    (values : List String) (wanted : String)
    → contains values wanted ≡ true
    → any (λ v. v =s wanted) values ≡ true
unfolding contains
contains-any values wanted h = elim (Bool-cases (any (λ v. v =s wanted) values)) [
  | inl e ↦ e
  | inr e ↦ absurd (
      cc (
        h,
        search_none wanted (sort string_less values)
            (sort-All string_less (λ v. (v =s wanted) ≡ false) values (any_none wanted values e)),
      ))
]

trim_space-empty : (trim_space "" =s "") ≡ true
unfolding trim_space
trim_space-empty = refl

unskipped-IsFit :
    (requester : String) (requirement : ApprovalRequirement) (a : Approval)
    → is_skipped requester requirement a ≡ false
    → lacks_permission requirement a ≡ false
    → IsFit requester requirement a
unfolding is_skipped lacks_permission
unskipped-IsFit requester requirement a h p =
    let untrimmed : (trim_space a.actor =s "") ≡ false = ground arith in
    let different = =s_iff a.actor requester in
    let required = =s_iff requirement.permission "" in
    record {
      named = λ e. absurd (cc (untrimmed, ap (λ s. trim_space s =s "") e, trim_space-empty));
      dated = ground arith;
      other = λ prohibited e. ground (arith, different);
      permitted = λ some_permission.
          contains-any a.permissions requirement.permission (ground (arith, required));
    }

-- A step of the loop: it skips the approval, or it marks its actor, who is new, and then it may
-- count the approval, which is fit.
counted-step :
    (requester : String) (requirement : ApprovalRequirement) (seen : List String) (a : Approval)
    (rest : List Approval)
    → (counted requester requirement seen (a ∷ rest) ≡ counted requester requirement seen rest)
      ⊎ ((is_duplicate requirement seen a ≡ false)
          × ((counted requester requirement seen (a ∷ rest)
                ≡ counted requester requirement (mark requirement seen a) rest)
              ⊎ ((is_skipped requester requirement a ≡ false)
                  × (lacks_permission requirement a ≡ false)
                  × (counted requester requirement seen (a ∷ rest)
                      ≡ a ∷ counted requester requirement (mark requirement seen a) rest))))
unfolding counted
counted-step requester requirement seen a rest = ground arith

-- The counted approvals are fit, are among those that were given, and, where actors have to be
-- distinct, are of distinct actors, none of them marked.
abbrev IsCounted :
    String → ApprovalRequirement → List String → List Approval → List Approval → Type 0
IsCounted requester requirement seen approvals good =
    All (IsFit requester requirement) good
    × All (λ a. Among a approvals) good
    × (requirement.distinct_actors ≡ true → HasDistinctActors good)
    × (requirement.distinct_actors ≡ true
        → All (λ (a : Approval). any (λ actor. actor =s a.actor) seen ≡ false) good)

IsCounted-skip :
    (requester : String) (requirement : ApprovalRequirement) (seen : List String) (a : Approval)
    (rest good : List Approval)
    → IsCounted requester requirement seen rest good
    → IsCounted requester requirement seen (a ∷ rest) good
IsCounted-skip requester requirement seen a rest good (fit, given, distinct, unseen) =
    (fit, All-map_pointwise good (λ b h. inr h) given, distinct, unseen)

unmarked_lem :
    (requirement : ApprovalRequirement) (seen : List String) (a b : Approval)
    → requirement.distinct_actors ≡ true
    → any (λ actor. actor =s b.actor) (mark requirement seen a) ≡ false
    → (any (λ actor. actor =s b.actor) seen ≡ false) × (b.actor ≢ a.actor)
unfolding any
unmarked_lem requirement seen a b d h =
    let same = =s_iff a.actor b.actor in (ground arith, λ e. let e' = sym e in ground (arith, same))

IsCounted-mark :
    (requester : String) (requirement : ApprovalRequirement) (seen : List String) (a : Approval)
    (rest good : List Approval)
    → IsCounted requester requirement (mark requirement seen a) rest good
    → IsCounted requester requirement seen (a ∷ rest) good
IsCounted-mark requester requirement seen a rest good (fit, given, distinct, unseen) = (
  fit,
  All-map_pointwise good (λ b h. inr h) given,
  distinct,
  λ d. All-map_pointwise good (λ b h. (unmarked_lem requirement seen a b d h).0) (unseen d),
)

IsCounted-count :
    (requester : String) (requirement : ApprovalRequirement) (seen : List String) (a : Approval)
    (rest good : List Approval)
    → is_duplicate requirement seen a ≡ false
    → IsFit requester requirement a
    → IsCounted requester requirement (mark requirement seen a) rest good
    → IsCounted requester requirement seen (a ∷ rest) (a ∷ good)
IsCounted-count requester requirement seen a rest good new ready (fit, given, distinct, unseen) = (
  (ready, fit),
  (inl refl, All-map_pointwise good (λ b h. inr h) given),
  λ d. (
    All-map_pointwise good (λ b h. (unmarked_lem requirement seen a b d h).1) (unseen d),
    distinct d,
  ),
  λ d. (
    ground arith,
    All-map_pointwise good (λ b h. (unmarked_lem requirement seen a b d h).0) (unseen d),
  ),
)

counted-IsCounted :
    (requester : String) (requirement : ApprovalRequirement) (seen : List String)
    (approvals : List Approval)
    → IsCounted requester requirement seen approvals (counted requester requirement seen approvals)
counted-IsCounted requester requirement seen [] = unfold counted in (tt, tt, λ d. tt, λ d. tt)
counted-IsCounted requester requirement seen (a ∷ rest) =
    elim (counted-step requester requirement seen a rest) [
      | inl e ↦ rw e (
          IsCounted-skip requester requirement seen a rest _
            (counted-IsCounted requester requirement seen rest))
      | inr (new, inl e) ↦ rw e (
          IsCounted-mark requester requirement seen a rest _
            (counted-IsCounted requester requirement (mark requirement seen a) rest))
      | inr (new, inr (kept, allowed, e)) ↦ rw e (
          IsCounted-count requester requirement seen a rest _ new
            (unskipped-IsFit requester requirement a kept allowed)
            (counted-IsCounted requester requirement (mark requirement seen a) rest))
    ]

-- A quorum: approvals that are fit, each of them among those that were given, of distinct actors
-- where that is required, and as many as the minimum asks for.
pub record HasQuorum (requester : String) (requirement : ApprovalRequirement)
    (approvals : List Approval) : Type 0 where
  pub quorum : List Approval
  pub fit : All (IsFit requester requirement) quorum
  pub given : All (λ a. Among a approvals) quorum
  pub distinct : requirement.distinct_actors ≡ true → HasDistinctActors quorum
  pub enough : (n : ℕ) → requirement.minimum ≡ pos n → n ≤ length quorum

enough_counted :
    (requester : String) (requirement : ApprovalRequirement) (approvals : List Approval) (n : ℕ)
    {u : Unit {0}}
    → check_approvals requester requirement approvals ≡ ok u
    → requirement.minimum ≡ pos n
    → n ≤ count_approvals requester requirement [] approvals
unfolding check_approvals
enough_counted requester requirement approvals n h e = ground arith

-- Approvals that CheckApprovals accepts contain a quorum.
pub check_approvals-HasQuorum :
    (requester : String) (requirement : ApprovalRequirement) (approvals : List Approval)
    → check_approvals requester requirement approvals ≡ ok tt
    → HasQuorum requester requirement approvals
check_approvals-HasQuorum requester requirement approvals h =
    let (fit, given, distinct, unseen) = counted-IsCounted requester requirement [] approvals in
    record {
      quorum = counted requester requirement [] approvals;
      fit = fit;
      given = given;
      distinct = distinct;
      enough = λ n e.
          rw (length-counted requester requirement [] approvals)
            (enough_counted requester requirement approvals n h e);
    }
