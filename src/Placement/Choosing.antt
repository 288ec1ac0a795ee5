-- ===== src/Placement/Choosing.antt =====
-- For internal/placement/plan.go: the node that BuildPlan selects.
use control_center_developme.Prelude.Sort.{sort, sort-All}
use control_center_developme.Prelude.Lists.{OneOf}
use control_center_developme.Prelude.{
  ℕ, ◌+◌, ◌*◌, ◌/◌, ◌%◌, ◌^◌, ◌≤◌, ◌<◌, String, ◌≡◌, ◌≢◌, ◌⊎◌, inl, inr, refl, sym, ◌∙◌, false,
  ◌||◌, List, [], ◌∷◌, length, ltb, ◌==◌, ◌=s◌, =s_iff, arith, ok, Bool-cases, ok-injective,
  >>=-eq-ok, reject, All, All-map_pointwise,
}
use control_center_developme.Placement.Candidates.{
  invalid_plan, Resources, Candidate, Request, normalize_request,
}
use control_center_developme.Placement.Plan.{
  Plan, larger, dominant_ppm, utilization_ppm, Ranked, rank_candidates, ranked_before, first_ranked,
  is_unsafe_move, plan_of, build_plan,
}
use control_center_developme.Placement.Suiting.{IsSuitable, IsOrdered, satisfies_iff}
use control_center_developme.Placement.Normal.{
  IsNormalRequest, IsNormalCandidate, normalize_request-IsNormalRequest,
  normalize_candidate-IsNormalCandidate,
}
use control_center_developme.Placement.Eligible.{
  IsFirst, sort-IsFirst, IsEligible, IsUnbeaten, rank_candidates-IsEligible,
  rank_candidates-IsUnbeaten, sort-All_back,
}

-- The use of a resource in parts per million, in the arithmetic of `uint64`.
abbrev pub load : ℕ → ℕ → ℕ → ℕ
load used need allocatable = (((used + need) % 2 ^ 64) * 1000000) % 2 ^ 64 / allocatable

-- A score is the largest of the three loads that a candidate would have.
pub record IsScore (c : Candidate) (need : Resources) (score : ℕ) : Type 0 where
  pub cpu : load c.used.cpu_millicores need.cpu_millicores c.allocatable.cpu_millicores ≤ score
  pub memory : load c.used.memory_mib need.memory_mib c.allocatable.memory_mib ≤ score
  pub storage : load c.used.storage_gib need.storage_gib c.allocatable.storage_gib ≤ score
  pub reached :
      (score ≡ load c.used.cpu_millicores need.cpu_millicores c.allocatable.cpu_millicores)
      ⊎ (score ≡ load c.used.memory_mib need.memory_mib c.allocatable.memory_mib)
      ⊎ (score ≡ load c.used.storage_gib need.storage_gib c.allocatable.storage_gib)

larger-parts : (a b : ℕ) → (a ≤ larger a b) × (b ≤ larger a b) × (larger a b ≡ a ⊎ larger a b ≡ b)
larger-parts a b = ground arith

dominant_ppm-IsScore : (c : Candidate) (need : Resources) → IsScore c need (dominant_ppm c need)
unfolding dominant_ppm utilization_ppm
dominant_ppm-IsScore c need =
    let cpu = load c.used.cpu_millicores need.cpu_millicores c.allocatable.cpu_millicores in
    let memory = load c.used.memory_mib need.memory_mib c.allocatable.memory_mib in
    let storage = load c.used.storage_gib need.storage_gib c.allocatable.storage_gib in
    let (m, s, either) = larger-parts memory storage in
    let (c', r, other) = larger-parts cpu (larger memory storage) in
    record {
      cpu = c';
      memory = omega (arith, m, r);
      storage = omega (arith, s, r);
      reached = elim other [
        | inl e ↦ inl e
        | inr e ↦ elim either [ inl f ↦ inr (inl (e ∙ f)) | inr f ↦ inr (inr (e ∙ f)) ]
      ];
    }

-- A candidate that was given does not suit the request, or it has a score not below `score`.
abbrev pub IsNoBetter : Request → ℕ → Candidate → Type 0
IsNoBetter request score raw =
    (c : Candidate) × IsNormalCandidate raw c
    × ((¬ IsSuitable request c)
        ⊎ ((other : ℕ) × IsScore c request.resources other × (score ≤ other)))

-- A workload without state moves anywhere; one with state stays where it is, has not been placed, or
-- has an adapter to move it and a healthy replica elsewhere.
abbrev pub IsSafeMove : Request → Candidate → Type 0
IsSafeMove request c =
    (request.class ≢ "stateful")
    ⊎ (request.current_node_id ≡ "")
    ⊎ (c.node_id ≡ request.current_node_id)
    ⊎ (request.migration_adapter ≢ "" × 0 < request.healthy_replicas_outside_node)

-- A plan carries the request and the node.
pub record Carries (request : Request) (c : Candidate) (plan : Plan) : Type 0 where
  pub workload : plan.workload_id ≡ request.workload_id
  pub resources : plan.resources ≡ request.resources
  pub node : plan.selected_node_id ≡ c.node_id
  pub site : plan.selected_site_id ≡ c.site_id
  pub zone : plan.selected_zone_id ≡ c.zone_id
  pub generation : plan.topology_generation ≡ request.topology_generation
  pub version : plan.topology_resource_version ≡ request.topology_resource_version

-- What a plan that is built is.
pub record IsPlaced (raw : Request) (candidates : List Candidate) (plan : Plan) : Type 0 where
  pub request : Request
  pub normal : IsNormalRequest raw request
  pub selected : Candidate
  pub given : OneOf (λ c. IsNormalCandidate c selected) candidates
  pub carries : Carries request selected plan
  pub suitable : IsSuitable request selected
  pub loaded : IsScore selected request.resources plan.dominant_utilization_ppm
  pub least : All (IsNoBetter request plan.dominant_utilization_ppm) candidates
  pub safe_move : IsSafeMove request selected

OneOf-IsNormalCandidate :
    (raw c : Candidate) (candidates : List Candidate)
    → IsNormalCandidate raw c
    → OneOf (λ x. x ≡ raw) candidates
    → OneOf (λ x. IsNormalCandidate x c) candidates
OneOf-IsNormalCandidate raw c [] normal o = absurd o
OneOf-IsNormalCandidate raw c (x ∷ xs) normal (inl p) = inl (rw p normal)
OneOf-IsNormalCandidate raw c (x ∷ xs) normal (inr o) =
    inr (OneOf-IsNormalCandidate raw c xs normal o)

Unbeaten-IsNoBetter :
    (request : Request) (score : ℕ) (raw : Candidate)
    → IsOrdered request
    → IsUnbeaten request score raw
    → IsNoBetter request score raw
Unbeaten-IsNoBetter request score raw order (c, normal, o) =
    let (same, within) = normalize_candidate-IsNormalCandidate raw c normal in
    (
      c,
      same,
      elim o [
        | inl fails ↦ inl (λ s. absurd (cc (fails, (satisfies_iff request c order within).1 s)))
        | inr below ↦
            inr (dominant_ppm c request.resources, dominant_ppm-IsScore c request.resources, below)
      ],
    )

is_unsafe_move-IsSafeMove :
    (request : Request) (r : Ranked)
    → is_unsafe_move request r ≡ false
    → IsSafeMove request r.candidate
is_unsafe_move-IsSafeMove request r h = elim (Bool-cases (request.class =s "stateful")) [
  | inr e ↦ inl (λ p. absurd (cc (e, (=s_iff request.class "stateful").1 p)))
  | inl e ↦ elim (Bool-cases (request.current_node_id =s "")) [
    | inl f ↦ inr (inl ((=s_iff request.current_node_id "").0 f))
    | inr f ↦ elim (Bool-cases (r.candidate.node_id =s request.current_node_id)) [
      | inl g ↦ inr (inr (inl ((=s_iff r.candidate.node_id request.current_node_id).0 g)))
      | inr g ↦ inr (
          inr (
            inr (
              λ p. absurd (let d = (=s_iff request.migration_adapter "").1 p in ground arith),
              ground arith,
            )))
    ]
  ]
]

first_ranked-parts :
    (xs : List Ranked) (selected : Ranked)
    → first_ranked xs ≡ ok selected
    → (rest : List Ranked) × (xs ≡ selected ∷ rest)
first_ranked-parts [] selected h = absurd (cc h)
first_ranked-parts (r ∷ rs) selected h = (rs, cc h)

IsFirst-least :
    (selected : Ranked) (rest : List Ranked)
    → IsFirst (selected ∷ rest)
    → All (λ (r : Ranked). selected.score ≤ r.score) (selected ∷ rest)
unfolding IsFirst
IsFirst-least selected rest h = (omega arith, h)

-- The first in order is eligible, and no candidate beats it.
first-IsLeast :
    (request : Request) (candidates : List Candidate) (eligible : List Ranked) (selected : Ranked)
    (rest : List Ranked)
    → rank_candidates request [] candidates ≡ ok eligible
    → sort ranked_before eligible ≡ selected ∷ rest
    → IsEligible request candidates selected × All (IsUnbeaten request selected.score) candidates
first-IsLeast request candidates eligible selected rest ranked sorted =
    let all_eligible =
      sort-All ranked_before (IsEligible request candidates) eligible
        (rank_candidates-IsEligible request [] candidates eligible ranked) in
    let least = IsFirst-least selected rest (rw sorted at (sort-IsFirst eligible)) in
    (
      (rw sorted at all_eligible).0,
      rank_candidates-IsUnbeaten request selected.score [] candidates eligible ranked
          (sort-All_back (λ (r : Ranked). selected.score ≤ r.score) eligible (rw sorted least)),
    )

module _ (plan_id_of : Request → Ranked → String) where
  -- A plan that BuildPlan returns carries the workload, the resources and the topology of the
  -- request and the node, site and zone of one of the candidates, in their normal forms. That
  -- candidate is healthy, schedulable, has the role, is at an allowed site and zone, is not to be
  -- avoided and has room besides what is in use. The plan's score is the largest of its three loads
  -- in the arithmetic of uint64; each candidate given is unsuitable or has a score that is not
  -- below it. A workload with state that moves has an adapter and a healthy replica elsewhere.
  pub build_plan-IsPlaced :
      (raw : Request) (candidates : List Candidate) (plan : Plan)
      → build_plan plan_id_of raw candidates ≡ ok plan
      → IsPlaced raw candidates plan
  unfolding build_plan
  build_plan-IsPlaced raw candidates plan h =
      let (request, formed, r1) = >>=-eq-ok (normalize_request raw) _ _ h in
      let (u, counted, r2) =
        >>=-eq-ok
          (reject (length candidates == 0 || ltb 4096 (length candidates))
            (invalid_plan "candidates"))
          _ _ r1 in
      let (eligible, ranked, r3) = >>=-eq-ok (rank_candidates request [] candidates) _ _ r2 in
      let (selected, first, r4) = >>=-eq-ok (first_ranked (sort ranked_before eligible)) _ _ r3 in
      let (v, safe, r5) =
        >>=-eq-ok (reject (is_unsafe_move request selected) (invalid_plan "stateful move")) _ _
          r4 in
      let made : plan_of plan_id_of request selected ≡ plan = ok-injective _ _ r5 in
      let (rest, sorted) = first_ranked-parts (sort ranked_before eligible) selected first in
      let (chosen, least) = first-IsLeast request candidates eligible selected rest ranked sorted in
      let (normal, order) = normalize_request-IsNormalRequest raw request formed in
      let (same, within) =
        normalize_candidate-IsNormalCandidate chosen.raw selected.candidate chosen.normal in
      rw (sym made) (record {
        request = request;
        normal = normal;
        selected = selected.candidate;
        given = OneOf-IsNormalCandidate chosen.raw selected.candidate candidates same chosen.given;
        carries = record {
          workload = refl;
          resources = refl;
          node = refl;
          site = refl;
          zone = refl;
          generation = refl;
          version = refl;
        };
        suitable = (satisfies_iff request selected.candidate order within).0 chosen.satisfied;
        loaded = rw (chosen.scored) (dominant_ppm-IsScore selected.candidate request.resources);
        least =
            All-map_pointwise candidates
              (λ c n. Unbeaten-IsNoBetter request selected.score c order n) least;
        safe_move = is_unsafe_move-IsSafeMove request selected (ground arith);
      })
