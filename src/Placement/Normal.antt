-- ===== src/Placement/Normal.antt =====
-- For internal/placement/plan.go: the normal forms of requests and candidates.
use mathlib.Core.List.{Perm, map}
use control_center_developme.Prelude.Sort.{sort, sort-perm}
use control_center_developme.Prelude.Text.{trim_space}
use control_center_developme.Prelude.{
  String, ◌≡◌, refl, sym, false, List, [], ◌∷◌, arith, ◌||◌, ◌==◌, ◌=s◌, ok, >>=-eq-ok, require,
  reject, ok-injective,
}
use control_center_developme.Placement.Candidates.{
  invalid_plan, valid_role, has_zero, optional_identifier, Candidate, Request, text_before,
  trimmed_ids, canonical_ids, exceeds, normalize_request, normalize_candidate, plan_identifier,
}
use control_center_developme.Placement.Suiting.{IsAscending, sort-IsAscending, IsOrdered}

-- The values without the blanks around them, in some order.
abbrev pub IsTrimmed : List String → List String → Type 0
IsTrimmed raw ids = Perm ids (map trim_space raw)

-- A request in its normal form.
pub record IsNormalRequest (raw request : Request) : Type 0 where
  pub workload : request.workload_id ≡ trim_space raw.workload_id
  pub class : request.class ≡ raw.class
  pub role : request.required_role ≡ raw.required_role
  pub resources : request.resources ≡ raw.resources
  pub current : request.current_node_id ≡ trim_space raw.current_node_id
  pub adapter : request.migration_adapter ≡ trim_space raw.migration_adapter
  pub replicas : request.healthy_replicas_outside_node ≡ raw.healthy_replicas_outside_node
  pub generation : request.topology_generation ≡ raw.topology_generation
  pub version : request.topology_resource_version ≡ trim_space raw.topology_resource_version
  pub sites : IsTrimmed raw.allowed_sites request.allowed_sites
  pub zones : IsTrimmed raw.allowed_zones request.allowed_zones
  pub avoided : IsTrimmed raw.anti_affinity_node_ids request.anti_affinity_node_ids

-- A candidate in its normal form.
pub record IsNormalCandidate (raw c : Candidate) : Type 0 where
  pub node : c.node_id ≡ trim_space raw.node_id
  pub site : c.site_id ≡ trim_space raw.site_id
  pub zone : c.zone_id ≡ trim_space raw.zone_id
  pub roles : Perm c.roles raw.roles
  pub state : (c.healthy ≡ raw.healthy) × (c.schedulable ≡ raw.schedulable)
  pub resources : (c.allocatable ≡ raw.allocatable) × (c.used ≡ raw.used)

trimmed_ids-map :
    (field : String) (values ids : List String)
    → trimmed_ids field values ≡ ok ids
    → ids ≡ map trim_space values
unfolding trimmed_ids
trimmed_ids-map field [] ids h = sym (ok-injective _ _ h)
trimmed_ids-map field (x ∷ xs) ids h =
    let (u, named, r) = >>=-eq-ok (plan_identifier field (trim_space x)) _ _ h in
    let (rest, trimmed, e) = >>=-eq-ok (trimmed_ids field xs) _ _ r in
    rw (sym (ok-injective _ _ e), trimmed_ids-map field xs rest trimmed) refl

canonical_ids-IsTrimmed :
    (field : String) (values ids : List String)
    → canonical_ids field values ≡ ok ids
    → IsTrimmed values ids × IsAscending ids
unfolding canonical_ids
canonical_ids-IsTrimmed field values ids h =
    let (found, trimmed, r) = >>=-eq-ok (trimmed_ids field values) _ _ h in
    let done : sort text_before found ≡ ids = ground arith in
    rw (sym done, sym (trimmed_ids-map field values found trimmed))
      (sort-perm text_before found, sort-IsAscending found)

pub normalize_request-IsNormalRequest :
    (raw request : Request)
    → normalize_request raw ≡ ok request
    → IsNormalRequest raw request × IsOrdered request
unfolding normalize_request
normalize_request-IsNormalRequest raw request h =
    let (u1, e1, r1) =
      >>=-eq-ok (plan_identifier "workload_id" (trim_space raw.workload_id)) _ _ h in
    let (u2, e2, r2) =
      >>=-eq-ok
        (require (raw.class =s "stateless" || raw.class =s "stateful")
          (invalid_plan "workload class"))
        _ _ r1 in
    let (u3, e3, r3) =
      >>=-eq-ok (require (valid_role raw.required_role) (invalid_plan "required_role")) _ _ r2 in
    let (u4, e4, r4) =
      >>=-eq-ok (reject (has_zero raw.resources) (invalid_plan "resource requirements")) _ _ r3 in
    let (u5, e5, r5) =
      >>=-eq-ok (reject (raw.topology_generation == 0) (invalid_plan "topology_generation")) _ _
        r4 in
    let (u6, e6, r6) =
      >>=-eq-ok
        (plan_identifier "topology_resource_version" (trim_space raw.topology_resource_version)) _ _
        r5 in
    let (sites, s, r7) = >>=-eq-ok (canonical_ids "allowed_sites" raw.allowed_sites) _ _ r6 in
    let (zones, z, r8) = >>=-eq-ok (canonical_ids "allowed_zones" raw.allowed_zones) _ _ r7 in
    let (avoided, a, r9) =
      >>=-eq-ok (canonical_ids "anti_affinity_node_ids" raw.anti_affinity_node_ids) _ _ r8 in
    let (u10, e10, r10) =
      >>=-eq-ok (optional_identifier "current_node_id" (trim_space raw.current_node_id)) _ _ r9 in
    let (u11, e11, r11) =
      >>=-eq-ok (optional_identifier "migration_adapter" (trim_space raw.migration_adapter)) _ _
        r10 in
    let (sites', sites_order) = canonical_ids-IsTrimmed "allowed_sites" raw.allowed_sites sites s in
    let (zones', zones_order) = canonical_ids-IsTrimmed "allowed_zones" raw.allowed_zones zones z in
    let (avoided', avoided_order) =
      canonical_ids-IsTrimmed "anti_affinity_node_ids" raw.anti_affinity_node_ids avoided a in
    rw (sym (ok-injective _ _ r11)) (
      record {
        workload = refl;
        class = refl;
        role = refl;
        resources = refl;
        current = refl;
        adapter = refl;
        replicas = refl;
        generation = refl;
        version = refl;
        sites = sites';
        zones = zones';
        avoided = avoided';
      },
      (sites_order, zones_order, avoided_order),
    )

normalize_candidate-roles :
    (raw c : Candidate) → normalize_candidate raw ≡ ok c → c.roles ≡ sort text_before raw.roles
unfolding normalize_candidate
normalize_candidate-roles raw c h = ground arith

pub normalize_candidate-IsNormalCandidate :
    (raw c : Candidate)
    → normalize_candidate raw ≡ ok c
    → IsNormalCandidate raw c × (exceeds c.used c.allocatable ≡ false)
unfolding normalize_candidate
normalize_candidate-IsNormalCandidate raw c h = (
  record {
    node = ground arith;
    site = ground arith;
    zone = ground arith;
    roles = rw (normalize_candidate-roles raw c h) (sort-perm text_before raw.roles);
    state = (ground arith, ground arith);
    resources = (ground arith, ground arith);
  },
  ground arith,
)
