-- ===== src/Placement/Examples.antt =====
-- For internal/placement/plan.go: a workload that has two candidates.
use Prim.Native.String.{◌++◌}
use control_center_developme.Contracts.Identifiers.{is_alnum, is_word_or_colon}
use control_center_developme.Prelude.Sort.{sort, insert_sorted}
use control_center_developme.Prelude.Text.{
  trim_space, trim_left, trim_right, is_space, any_rune, byte_length,
}
use control_center_developme.Prelude.{◌≡◌, refl, true, String, List, [], ◌∷◌, ok, any}
use control_center_developme.Placement.Candidates.{
  Resources, Candidate, Request, plan_identifier, starts_alphanumeric, ends_alphanumeric,
  trimmed_ids, canonical_ids, repeats, normalize_request, normalize_candidate,
}
use control_center_developme.Placement.Plan.{
  Plan, Ranked, utilization_ppm, dominant_ppm, contains, allowed_at, satisfies, rank_candidates,
  ranked_before, build_plan,
}
use control_center_developme.Placement.Choosing.{IsPlaced, build_plan-IsPlaced}

abbrev node : String → Resources → Candidate
node node_id used = record {
  node_id = node_id;
  site_id = "site-1";
  zone_id = "zone-1";
  roles = "worker-node" ∷ "agent" ∷ [];
  healthy = true;
  schedulable = true;
  allocatable = record { cpu_millicores = 4000; memory_mib = 8192; storage_gib = 100 };
  used = used;
}

abbrev candidates : List Candidate
candidates =
    node "node-1" (record { cpu_millicores = 3000; memory_mib = 2048; storage_gib = 10 })
    ∷ node " node-2 " (record { cpu_millicores = 1000; memory_mib = 1024; storage_gib = 10 })
    ∷ []

abbrev request : Request
request = record {
  workload_id = "workload-1";
  class = "stateful";
  required_role = "worker-node";
  allowed_sites = "site-2" ∷ "site-1" ∷ [];
  allowed_zones = [];
  anti_affinity_node_ids = [];
  resources = record { cpu_millicores = 500; memory_mib = 512; storage_gib = 20 };
  current_node_id = "node-1";
  migration_adapter = "copy";
  healthy_replicas_outside_node = 1;
  topology_generation = 3;
  topology_resource_version = "7";
}

abbrev plan_id_of : Request → Ranked → String
plan_id_of r selected = "plc-" ++ r.workload_id

abbrev plan : Plan
plan = record {
  plan_id = "plc-workload-1";
  workload_id = "workload-1";
  selected_node_id = "node-2";
  selected_site_id = "site-1";
  selected_zone_id = "zone-1";
  resources = record { cpu_millicores = 500; memory_mib = 512; storage_gib = 20 };
  dominant_utilization_ppm = 375000;
  topology_generation = 3;
  topology_resource_version = "7";
}

build_plan_example : build_plan plan_id_of request candidates ≡ ok plan
unfolding build_plan normalize_request canonical_ids trimmed_ids plan_identifier rank_candidates
    normalize_candidate satisfies allowed_at contains dominant_ppm utilization_ppm sort
    insert_sorted ranked_before repeats trim_space trim_left trim_right is_space byte_length
    any_rune is_word_or_colon is_alnum starts_alphanumeric ends_alphanumeric any
build_plan_example = refl

build_plan-IsPlaced_example : IsPlaced request candidates plan
build_plan-IsPlaced_example =
    build_plan-IsPlaced plan_id_of request candidates plan build_plan_example
