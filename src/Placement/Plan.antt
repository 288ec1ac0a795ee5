-- ===== src/Placement/Plan.antt =====
-- internal/placement/plan.go: BuildPlan. Sums and products of uint64 wrap around.
use control_center_developme.Prelude.Sort.{sort}
use control_center_developme.Prelude.{
  ℕ, ◌+◌, ◌-◌, ◌*◌, ◌/◌, ◌%◌, String, Bool, false, not, ◌&&◌, ◌||◌, List, [], ◌∷◌, any, length, ltb,
  leb, ◌==◌, ◌=s◌, if◌then◌else◌, Result, ok, err, ◌>>=◌, ◌>>◌, reject,
}
use control_center_developme.Placement.Candidates.{
  PlanError, invalid_plan, Resources, Candidate, Request, text_before, is_empty, normalize_request,
  normalize_candidate,
}

-- What BuildPlan returns, less its contract version and the fields that are the same in all plans
pub record Plan : Type 0 where
  pub plan_id : String
  pub workload_id : String
  pub selected_node_id : String
  pub selected_site_id : String
  pub selected_zone_id : String
  pub resources : Resources
  pub dominant_utilization_ppm : ℕ
  pub topology_generation : ℕ
  pub topology_resource_version : String

-- fits, of a candidate whose usage does not exceed what it has
abbrev pub fits : Candidate → Resources → Bool
fits c need =
    leb need.cpu_millicores (c.allocatable.cpu_millicores - c.used.cpu_millicores)
    && leb need.memory_mib (c.allocatable.memory_mib - c.used.memory_mib)
    && leb need.storage_gib (c.allocatable.storage_gib - c.used.storage_gib)

abbrev pub wrap : ℕ → ℕ
wrap n = n % 18446744073709551616

-- `(used + need) * 1_000_000 / allocatable`
unfoldable pub utilization_ppm : ℕ → ℕ → ℕ → ℕ
utilization_ppm used need allocatable = wrap (wrap (used + need) * 1000000) / allocatable

abbrev pub larger : ℕ → ℕ → ℕ
larger a b = if ltb a b then b else a

-- dominantPPM
unfoldable pub dominant_ppm : Candidate → Resources → ℕ
unfolding utilization_ppm
dominant_ppm c need =
    larger (utilization_ppm c.used.cpu_millicores need.cpu_millicores c.allocatable.cpu_millicores)
      (larger (utilization_ppm c.used.memory_mib need.memory_mib c.allocatable.memory_mib)
        (utilization_ppm c.used.storage_gib need.storage_gib c.allocatable.storage_gib))

-- containsRole
abbrev pub contains_role : List String → String → Bool
contains_role values wanted = any (λ value. value =s wanted) values

-- contains: `sort.SearchStrings` finds the first element of a sorted list that is not before.
unfoldable pub contains : List String → String → Bool
contains [] wanted = false
contains (value ∷ rest) wanted =
    let later : Bool = contains rest wanted in
    if text_before value wanted then later else value =s wanted

-- allowed
unfoldable pub allowed_at : String → List String → Bool
unfolding contains
allowed_at value values = is_empty values || contains values value

-- The constraints of a request.
unfoldable pub satisfies : Request → Candidate → Bool
unfolding allowed_at contains
satisfies request c =
    c.healthy
    && c.schedulable
    && contains_role c.roles request.required_role
    && allowed_at c.site_id request.allowed_sites
    && allowed_at c.zone_id request.allowed_zones
    && not (contains request.anti_affinity_node_ids c.node_id)
    && fits c request.resources

pub record Ranked : Type 0 where
  pub candidate : Candidate
  pub score : ℕ

-- BuildPlan, the loop over the candidates
unfoldable pub rank_candidates :
    Request → List String → List Candidate → Result PlanError (List Ranked)
unfolding normalize_candidate satisfies dominant_ppm
rank_candidates request seen [] = ok []
rank_candidates request seen (raw ∷ rest) = do
  candidate ← normalize_candidate raw
  reject (any (λ id. id =s candidate.node_id) seen) (invalid_plan "duplicate candidate")
  later ← rank_candidates request (candidate.node_id ∷ seen) rest
  ok (
      if satisfies request candidate
      then record { candidate = candidate; score = dominant_ppm candidate request.resources }
        ∷ later
      else later)

-- BuildPlan, the order of the eligible candidates
unfoldable pub ranked_before : Ranked → Ranked → Bool
ranked_before a b =
    if not (a.score == b.score)
    then ltb a.score b.score
    else text_before a.candidate.node_id b.candidate.node_id

abbrev pub first_ranked : List Ranked → Result PlanError Ranked
first_ranked [] = err (invalid_plan "no healthy schedulable candidate")
first_ranked (r ∷ rs) = ok r

-- BuildPlan, a move of a stateful workload
abbrev pub is_unsafe_move : Request → Ranked → Bool
is_unsafe_move request selected =
    (request.class =s "stateful"
      && not (request.current_node_id =s "")
      && not (selected.candidate.node_id =s request.current_node_id))
    && (request.migration_adapter =s "" || request.healthy_replicas_outside_node == 0)

-- What the plan takes from `crypto/sha256` with `encoding/json`: the id of a request, the selected
-- candidate and its score.
module _ (plan_id_of : Request → Ranked → String) where
  abbrev pub plan_of : Request → Ranked → Plan
  plan_of request selected = record {
    plan_id = plan_id_of request selected;
    workload_id = request.workload_id;
    selected_node_id = selected.candidate.node_id;
    selected_site_id = selected.candidate.site_id;
    selected_zone_id = selected.candidate.zone_id;
    resources = request.resources;
    dominant_utilization_ppm = selected.score;
    topology_generation = request.topology_generation;
    topology_resource_version = request.topology_resource_version;
  }

  -- BuildPlan. Without candidates there is none to select.
  unfoldable pub build_plan : Request → List Candidate → Result PlanError Plan
  unfolding normalize_request rank_candidates sort ranked_before
  build_plan raw candidates = do
    request ← normalize_request raw
    reject (length candidates == 0 || ltb 4096 (length candidates)) (invalid_plan "candidates")
    eligible ← rank_candidates request [] candidates
    selected ← first_ranked (sort ranked_before eligible)
    reject (is_unsafe_move request selected) (invalid_plan "stateful move")
    ok (plan_of request selected)
