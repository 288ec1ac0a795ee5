-- ===== src/Placement/Candidates.antt =====
-- internal/placement/plan.go: candidates, requests and their normal forms. A role and a workload class
-- are texts. Numbers are uint64.
use Prim.Native.Char.{code}
use Prim.Native.String.{compare, ◌∷◌, []}
use text.Mathlib.Text.{is_lt}
use control_center_developme.Contracts.Identifiers.{is_alnum, is_word_or_colon}
use control_center_developme.Prelude.Sort.{sort}
use control_center_developme.Prelude.Text.{trim_space, any_rune, byte_length}
use control_center_developme.Prelude.{
  ℕ, String, Bool, true, false, not, ◌&&◌, ◌||◌, List, any, ltb, ◌==◌, ◌=s◌, if◌then◌else◌, Result,
  ok, ◌>>=◌, ◌>>◌, require, reject,
}

-- ErrInvalidPlan, with the field or the text of the error
pub data PlanError : Type 0 where
  invalid_plan : String → PlanError

pub record Resources : Type 0 where
  pub cpu_millicores : ℕ
  pub memory_mib : ℕ
  pub storage_gib : ℕ

pub record Candidate : Type 0 where
  pub node_id : String
  pub site_id : String
  pub zone_id : String
  pub roles : List String
  pub healthy : Bool
  pub schedulable : Bool
  pub allocatable : Resources
  pub used : Resources

pub record Request : Type 0 where
  pub workload_id : String
  pub class : String
  pub required_role : String
  pub allowed_sites : List String
  pub allowed_zones : List String
  pub anti_affinity_node_ids : List String
  pub resources : Resources
  pub current_node_id : String
  pub migration_adapter : String
  pub healthy_replicas_outside_node : ℕ
  pub topology_generation : ℕ
  pub topology_resource_version : String

-- NodeRole.Valid
abbrev pub valid_role : String → Bool
valid_role role =
    role =s "management-node"
    || role =s "global-controller"
    || role =s "site-controller"
    || role =s "controller-cluster-member"
    || role =s "worker-node"
    || role =s "managed-node"
    || role =s "agent"
    || role =s "data-node"
    || role =s "consensus-node"
    || role =s "repository-node"
    || role =s "telemetry-node"
    || role =s "backup-repository-node"
    || role =s "edge-gateway"

-- The last character is alphanumeric.
unfoldable pub ends_alphanumeric : String → Bool
unfolding is_alnum
ends_alphanumeric [] = false
ends_alphanumeric (c ∷ []) = is_alnum (code c)
ends_alphanumeric (c ∷ d ∷ s) = ends_alphanumeric (d ∷ s)

unfoldable pub starts_alphanumeric : String → Bool
unfolding is_alnum
starts_alphanumeric [] = false
starts_alphanumeric (c ∷ s) = is_alnum (code c)

-- identifier. Where its characters are those of identifiers, they are bytes.
unfoldable pub plan_identifier : String → String → Result PlanError (Unit {0})
unfolding trim_space byte_length any_rune is_word_or_colon starts_alphanumeric ends_alphanumeric
plan_identifier field value = do
  reject (value =s "" || ltb 128 (byte_length value) || not (trim_space value =s value))
      (invalid_plan field)
  reject (any_rune (λ r. not (is_word_or_colon r)) value) (invalid_plan field)
  require (starts_alphanumeric value && ends_alphanumeric value) (invalid_plan field)

abbrev pub text_before : String → String → Bool
text_before a b = is_lt (compare a b)

-- `for i := 1; ...; values[i] == values[i-1]`
unfoldable pub repeats : List String → Bool
repeats List.[] = false
repeats (List.◌∷◌ x List.[]) = false
repeats (List.◌∷◌ x (List.◌∷◌ y ys)) = y =s x || repeats (List.◌∷◌ y ys)

-- canonicalIDs, the loop
unfoldable pub trimmed_ids : String → List String → Result PlanError (List String)
unfolding plan_identifier
trimmed_ids field List.[] = ok List.[]
trimmed_ids field (List.◌∷◌ x xs) = do
  plan_identifier field (trim_space x)
  rest ← trimmed_ids field xs
  ok (List.◌∷◌ (trim_space x) rest)

-- canonicalIDs
unfoldable pub canonical_ids : String → List String → Result PlanError (List String)
unfolding trimmed_ids sort repeats
canonical_ids field values = do
  ids ← trimmed_ids field values
  reject (repeats (sort text_before ids)) (invalid_plan field)
  ok (sort text_before ids)

abbrev pub optional_identifier : String → String → Result PlanError (Unit {0})
optional_identifier field value = if value =s "" then ok tt else plan_identifier field value

abbrev pub has_zero : Resources → Bool
has_zero r = r.cpu_millicores == 0 || r.memory_mib == 0 || r.storage_gib == 0

-- normalizeRequest
unfoldable pub normalize_request : Request → Result PlanError Request
unfolding canonical_ids plan_identifier
normalize_request request = do
  let workload_id : String = trim_space request.workload_id
  let current_node_id : String = trim_space request.current_node_id
  let migration_adapter : String = trim_space request.migration_adapter
  let version : String = trim_space request.topology_resource_version
  plan_identifier "workload_id" workload_id
  require (request.class =s "stateless" || request.class =s "stateful")
      (invalid_plan "workload class")
  require (valid_role request.required_role) (invalid_plan "required_role")
  reject (has_zero request.resources) (invalid_plan "resource requirements")
  reject (request.topology_generation == 0) (invalid_plan "topology_generation")
  plan_identifier "topology_resource_version" version
  sites ← canonical_ids "allowed_sites" request.allowed_sites
  zones ← canonical_ids "allowed_zones" request.allowed_zones
  avoided ← canonical_ids "anti_affinity_node_ids" request.anti_affinity_node_ids
  optional_identifier "current_node_id" current_node_id
  optional_identifier "migration_adapter" migration_adapter
  ok (record request {
    workload_id = workload_id;
    current_node_id = current_node_id;
    migration_adapter = migration_adapter;
    topology_resource_version = version;
    allowed_sites = sites;
    allowed_zones = zones;
    anti_affinity_node_ids = avoided;
  })

abbrev pub exceeds : Resources → Resources → Bool
exceeds used allocatable =
    ltb allocatable.cpu_millicores used.cpu_millicores
    || ltb allocatable.memory_mib used.memory_mib
    || ltb allocatable.storage_gib used.storage_gib

abbrev pub is_empty : List String → Bool
is_empty List.[] = true
is_empty (List.◌∷◌ x xs) = false

-- normalizeCandidate. The source checks the three identifiers in no fixed order; here the node is first.
unfoldable pub normalize_candidate : Candidate → Result PlanError Candidate
unfolding plan_identifier sort repeats
normalize_candidate candidate = do
  let node_id : String = trim_space candidate.node_id
  let site_id : String = trim_space candidate.site_id
  let zone_id : String = trim_space candidate.zone_id
  plan_identifier "node_id" node_id
  plan_identifier "site_id" site_id
  plan_identifier "zone_id" zone_id
  reject (has_zero candidate.allocatable) (invalid_plan "zero allocatable resource")
  reject (exceeds candidate.used candidate.allocatable) (invalid_plan "usage exceeds allocatable")
  reject (is_empty candidate.roles) (invalid_plan "no roles")
  reject (any (λ role. not (valid_role role)) candidate.roles) (invalid_plan "invalid role")
  reject (repeats (sort text_before candidate.roles)) (invalid_plan "repeats a role")
  ok (record candidate {
    node_id = node_id;
    site_id = site_id;
    zone_id = zone_id;
    roles = sort text_before candidate.roles;
  })
