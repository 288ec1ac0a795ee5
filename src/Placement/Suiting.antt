-- ===== src/Placement/Suiting.antt =====
-- For internal/placement/plan.go: which candidates suit a request, and the sorted lists of its ids.
use control_center_developme.Prelude.Sort.{sort, insert_sorted, insert_sorted-All}
use control_center_developme.Prelude.TextOrder.{
  text_order_trans, text_order_antisymm, text_order_total,
}
use control_center_developme.Prelude.Lists.{OneOf}
use control_center_developme.Prelude.{
  ◌+◌, ◌≤◌, String, ◌≡◌, ◌⊎◌, ◌↔◌, refl, sym, inl, inr, true, false, List, [], ◌∷◌, any, arith,
  Bool-cases, ◌=s◌, =s_iff, All, All-map_pointwise,
}
use control_center_developme.Placement.Candidates.{
  Resources, Candidate, Request, text_before, exceeds,
}
use control_center_developme.Placement.Plan.{contains_role, contains, allowed_at, fits, satisfies}

-- The resources of the workload are there on the node, besides those in use.
abbrev pub HasRoom : Candidate → Resources → Type 0
HasRoom c need =
    (c.used.cpu_millicores + need.cpu_millicores ≤ c.allocatable.cpu_millicores)
    × (c.used.memory_mib + need.memory_mib ≤ c.allocatable.memory_mib)
    × (c.used.storage_gib + need.storage_gib ≤ c.allocatable.storage_gib)

-- A place that is on the list, or any place where there is no list.
abbrev pub IsAllowed : List String → String → Type 0
IsAllowed places place = (places ≡ []) ⊎ OneOf (λ p. p ≡ place) places

-- A candidate that suits a request.
pub record IsSuitable (request : Request) (c : Candidate) : Type 0 where
  pub healthy : c.healthy ≡ true
  pub schedulable : c.schedulable ≡ true
  pub role : OneOf (λ r. r ≡ request.required_role) c.roles
  pub site : IsAllowed request.allowed_sites c.site_id
  pub zone : IsAllowed request.allowed_zones c.zone_id
  pub apart : ¬ OneOf (λ id. id ≡ c.node_id) request.anti_affinity_node_ids
  pub room : HasRoom c request.resources

-- Texts of which none comes before an earlier one.
abbrev pub IsAscending : List String → Type 0
IsAscending [] = Unit
IsAscending (x ∷ xs) = All (λ y. text_before y x ≡ false) xs × IsAscending xs

insert_sorted-IsAscending :
    (x : String) (ys : List String) → IsAscending ys → IsAscending (insert_sorted text_before x ys)
unfolding insert_sorted
insert_sorted-IsAscending x [] h = (tt, tt)
insert_sorted-IsAscending x (y ∷ ys) h = elim (Bool-cases (text_before y x)) [
  | inl e ↦ rw e (
    insert_sorted-All text_before (λ z. text_before z y ≡ false) x ys (text_order_total y x e) h.0,
    insert_sorted-IsAscending x ys h.1,
  )
  | inr e ↦ rw e ((e, All-map_pointwise ys (λ z n. text_order_trans x y z e n) h.0), h)
]

pub sort-IsAscending : (xs : List String) → IsAscending (sort text_before xs)
unfolding sort
sort-IsAscending [] = tt
sort-IsAscending (x ∷ xs) = insert_sorted-IsAscending x (sort text_before xs) (sort-IsAscending xs)

-- In a list in order the search finds exactly what is there.
contains-OneOf :
    (values : List String) (wanted : String)
    → contains values wanted ≡ true
    → OneOf (λ v. v ≡ wanted) values
unfolding contains
contains-OneOf [] wanted h = absurd (cc h)
contains-OneOf (v ∷ vs) wanted h = elim (Bool-cases (text_before v wanted)) [
  | inl e ↦ inr (contains-OneOf vs wanted (rw e at h))
  | inr e ↦ inl ((=s_iff v wanted).0 (rw e at h))
]

not_before : (v wanted : String) → v ≡ wanted → text_before v wanted ≡ false
not_before v wanted p = elim (Bool-cases (text_before v wanted)) [
  | inl e ↦ rw (sym p) (text_order_total v v (rw (sym p) at e))
  | inr e ↦ e
]

OneOf-contains :
    (values : List String) (wanted : String)
    → IsAscending values
    → OneOf (λ v. v ≡ wanted) values
    → contains values wanted ≡ true
unfolding contains
OneOf-contains [] wanted s h = absurd h
OneOf-contains (v ∷ vs) wanted s (inl p) = rw (not_before v wanted p) ((=s_iff v wanted).1 p)
OneOf-contains (v ∷ vs) wanted s (inr o) = elim (Bool-cases (text_before v wanted)) [
  | inl e ↦ rw e (OneOf-contains vs wanted s.1 o)
  | inr e ↦
      let after : text_before wanted v ≡ false = ascending_after v wanted vs s.0 o in
      rw e ((=s_iff v wanted).1 (text_order_antisymm v wanted e after))
]
  where
    ascending_after :
        (v wanted : String) (vs : List String)
        → All (λ y. text_before y v ≡ false) vs
        → OneOf (λ y. y ≡ wanted) vs
        → text_before wanted v ≡ false
    ascending_after v wanted [] s o = absurd o
    ascending_after v wanted (y ∷ ys) s (inl p) = rw p at (s.0)
    ascending_after v wanted (y ∷ ys) s (inr o) = ascending_after v wanted ys s.1 o

contains_role_iff :
    (roles : List String) (wanted : String)
    → (contains_role roles wanted ≡ true) ↔ OneOf (λ r. r ≡ wanted) roles
unfolding any
contains_role_iff [] wanted = (λ h. absurd (cc h), λ o. absurd o)
contains_role_iff (r ∷ rs) wanted =
    let (to, back) = contains_role_iff rs wanted in
    (
      λ h. elim (Bool-cases (r =s wanted)) [
        | inl e ↦ inl ((=s_iff r wanted).0 e)
        | inr e ↦ inr (to (ground arith))
      ],
      λ o. elim o [
        | inl p ↦ rw ((=s_iff r wanted).1 p) refl
        | inr later ↦ let rest = back later in ground arith
      ],
    )

allowed_at_iff :
    (place : String) (places : List String)
    → IsAscending places
    → (allowed_at place places ≡ true) ↔ IsAllowed places place
unfolding allowed_at
allowed_at_iff place [] s = (λ h. inl refl, λ o. refl)
allowed_at_iff place (p ∷ ps) s = (
  λ h. inr (contains-OneOf (p ∷ ps) place h),
  λ o. elim o [ inl e ↦ absurd (cc e) | inr o' ↦ OneOf-contains (p ∷ ps) place s o' ],
)

fits_iff :
    (c : Candidate) (need : Resources)
    → exceeds c.used c.allocatable ≡ false
    → (fits c need ≡ true) ↔ HasRoom c need
fits_iff c need within =
    (λ h. (ground arith, ground arith, ground arith), λ (a, b, d). ground arith)

-- The lists of a request in normal form are in order.
abbrev pub IsOrdered : Request → Type 0
IsOrdered request =
    IsAscending request.allowed_sites
    × IsAscending request.allowed_zones
    × IsAscending request.anti_affinity_node_ids

-- The constraints are those of a suitable candidate.
pub satisfies_iff :
    (request : Request) (c : Candidate)
    → IsOrdered request
    → exceeds c.used c.allocatable ≡ false
    → (satisfies request c ≡ true) ↔ IsSuitable request c
unfolding satisfies
satisfies_iff request c (sites, zones, avoided) within =
    let role = contains_role_iff c.roles request.required_role in
    let site = allowed_at_iff c.site_id request.allowed_sites sites in
    let zone = allowed_at_iff c.zone_id request.allowed_zones zones in
    let room = fits_iff c request.resources within in
    (
      λ h. record {
        healthy = ground arith;
        schedulable = ground arith;
        role = role.0 (ground arith);
        site = site.0 (ground arith);
        zone = zone.0 (ground arith);
        apart = λ o.
            let found = OneOf-contains request.anti_affinity_node_ids c.node_id avoided o in
            absurd (ground arith);
        room = room.0 (ground arith);
      },
      λ s.
          let free : contains request.anti_affinity_node_ids c.node_id ≡ false =
            elim (Bool-cases (contains request.anti_affinity_node_ids c.node_id)) [
              | inl e ↦ absurd (s.apart (contains-OneOf request.anti_affinity_node_ids c.node_id e))
              | inr e ↦ e
            ] in
          rw
            (
              s.healthy,
              s.schedulable,
              role.1 s.role,
              site.1 s.site,
              zone.1 s.zone,
              free,
              room.1 s.room,
            )
            refl,
    )
