-- ===== src/Network/Plan/Build.antt =====
-- internal/networkpolicy/change_plan.go: the canonical form of a request, and its plan.
use Prim.Native.String.{compare}
use text.Mathlib.Text.{is_lt}
use control_center_developme.Prelude.Sort.{sort}
use control_center_developme.Prelude.Text.{trim_space}
use control_center_developme.Prelude.{
  ℕ, suc, String, Bool, true, false, not, ◌&&◌, ◌||◌, Option, none, some, List, [], ◌∷◌, any,
  length, ltb, ◌==◌, ◌=s◌, if◌then◌else◌, Result, ok, ◌>>=◌, ◌>>◌, require, reject, is_ok, Store,
  find, put,
}
use control_center_developme.Network.Policy.{
  NetworkError, invalid_change_plan, ForwardingIntent, valid_zone, authorize_forwarding,
}
use control_center_developme.Network.Plan.Types.{
  max_interfaces_per_plan, max_forwarding_intents, max_probes_per_plan, valid_probe_kind,
  InterfaceIntent, ConnectivityProbe, ChangePlanRequest, ChangeStep, ChangePlan, PlanPlatform,
  normalize_identifier, validate_timeouts, snapshot_stage, preflight_stage, apply_window_stage,
  probes_stage, decision_stage, capture_recovery_snapshot, validate_network_contract,
  validate_management_path, authorize_forwarding_action, open_temporary_window,
  run_connectivity_probes, commit_or_rollback,
}

abbrev pub has : {V : Type 0} → String → Store V → Bool
has k m = elim (find k m) [ none ↦ false | some v ↦ true ]

abbrev pub count_if : Bool → ℕ → ℕ
count_if true n = suc n
count_if false n = n

abbrev pub is_empty : {A : Type 0} → List A → Bool
is_empty [] = true
is_empty (x ∷ xs) = false

unfoldable pub interface_less : InterfaceIntent → InterfaceIntent → Bool
interface_less a b = is_lt (compare a.interface_id b.interface_id)

unfoldable pub zone_declared : String → Store InterfaceIntent → Bool
zone_declared zone [] = false
zone_declared zone ((id, item) ∷ rest) = item.zone =s zone || zone_declared zone rest

-- `_, duplicate := seen[source + "\x00" + destination]`; a zone that is valid holds no NUL.
abbrev pub same_pair : ForwardingIntent → ForwardingIntent → Bool
same_pair a b = a.source =s b.source && a.destination =s b.destination

unfoldable pub forwarding_less : ForwardingIntent → ForwardingIntent → Bool
forwarding_less a b =
    if a.source =s b.source
    then is_lt (compare a.destination b.destination)
    else is_lt (compare a.source b.source)

-- `bound, exists := interfaces[id]; !exists || bound.Zone != zone`, negated
abbrev pub bound_in : String → Option InterfaceIntent → Bool
bound_in zone none = false
bound_in zone (some item) = item.zone =s zone

unfoldable pub probe_less : ConnectivityProbe → ConnectivityProbe → Bool
probe_less a b = is_lt (compare a.id b.id)

-- `covered[id]` behind the loop over the probes
unfoldable pub covered : List ConnectivityProbe → String → Bool
covered probes id = any (λ (p : ConnectivityProbe). p.interface_id =s id) probes

unfoldable pub is_management_probe : ConnectivityProbe → Bool
is_management_probe p = p.kind =s "control_plane" && (p.zone =s "MANAGEMENT" || p.zone =s "LAN")

-- validateProbeCoverage
unfoldable pub validate_probe_coverage :
    List InterfaceIntent → List ConnectivityProbe → Result NetworkError (Unit {0})
validate_probe_coverage interfaces probes = do
  reject
      (any (λ (item : InterfaceIntent). item.changed && not (covered probes item.interface_id))
        interfaces)
      invalid_change_plan
  require (any is_management_probe probes) invalid_change_plan

abbrev pub plan_steps : List ChangeStep
plan_steps =
    record { order = 1; stage = snapshot_stage; action = capture_recovery_snapshot }
    ∷ record { order = 2; stage = preflight_stage; action = validate_network_contract }
    ∷ record { order = 3; stage = preflight_stage; action = validate_management_path }
    ∷ record { order = 4; stage = preflight_stage; action = authorize_forwarding_action }
    ∷ record { order = 5; stage = apply_window_stage; action = open_temporary_window }
    ∷ record { order = 6; stage = probes_stage; action = run_connectivity_probes }
    ∷ record { order = 7; stage = decision_stage; action = commit_or_rollback }
    ∷ []

module _ (platform : PlanPlatform) where
  open platform use {to_upper, plan_digest}

  abbrev pub canonical_zone : String → String
  canonical_zone zone = to_upper (trim_space zone)

  -- The loop of canonicalInterfaces: the entries in order, the map of them by id, and how many are
  -- changed.
  unfoldable pub interfaces_loop :
      Store InterfaceIntent
      → List InterfaceIntent
      → Result NetworkError (List InterfaceIntent × Store InterfaceIntent × ℕ)
  interfaces_loop by_id [] = ok ([], by_id, 0)
  interfaces_loop by_id (item ∷ items) = do
    id ← normalize_identifier item.interface_id
    require (valid_zone (canonical_zone item.zone)) invalid_change_plan
    reject (has id by_id) invalid_change_plan
    rest ←
        interfaces_loop
          (put id (record item { interface_id = id; zone = canonical_zone item.zone }) by_id) items
    ok (
      record item { interface_id = id; zone = canonical_zone item.zone } ∷ rest.0,
      rest.1,
      count_if item.changed rest.2,
    )

  -- canonicalInterfaces
  unfoldable pub canonical_interfaces :
      List InterfaceIntent → Result NetworkError (List InterfaceIntent × Store InterfaceIntent)
  canonical_interfaces input = do
    reject (is_empty input || ltb max_interfaces_per_plan (length input)) invalid_change_plan
    found ← interfaces_loop [] input
    reject (found.2 == 0) invalid_change_plan
    ok (sort interface_less found.0, found.1)

  abbrev pub canonical_intent : ForwardingIntent → ForwardingIntent
  canonical_intent intent = record intent {
    source = canonical_zone intent.source;
    destination = canonical_zone intent.destination;
  }

  -- The loop of canonicalForwarding, with the intents that it has seen.
  unfoldable pub forwarding_loop :
      Store InterfaceIntent
      → List ForwardingIntent
      → List ForwardingIntent
      → Result NetworkError (List ForwardingIntent)
  forwarding_loop interfaces seen [] = ok []
  forwarding_loop interfaces seen (intent ∷ intents) = do
    require (is_ok (authorize_forwarding (canonical_intent intent))) invalid_change_plan
    require (zone_declared (canonical_zone intent.source) interfaces) invalid_change_plan
    require (zone_declared (canonical_zone intent.destination) interfaces) invalid_change_plan
    reject (any (same_pair (canonical_intent intent)) seen) invalid_change_plan
    rest ← forwarding_loop interfaces (canonical_intent intent ∷ seen) intents
    ok (canonical_intent intent ∷ rest)

  -- canonicalForwarding
  unfoldable pub canonical_forwarding :
      List ForwardingIntent → Store InterfaceIntent → Result NetworkError (List ForwardingIntent)
  canonical_forwarding input interfaces = do
    reject (ltb max_forwarding_intents (length input)) invalid_change_plan
    found ← forwarding_loop interfaces [] input
    ok (sort forwarding_less found)

  -- The loop of canonicalProbes, with the ids that it has seen.
  unfoldable pub probes_loop :
      Store InterfaceIntent
      → List String
      → List ConnectivityProbe
      → Result NetworkError (List ConnectivityProbe)
  probes_loop interfaces seen [] = ok []
  probes_loop interfaces seen (probe ∷ probes) = do
    id ← normalize_identifier probe.id
    interface_id ← normalize_identifier probe.interface_id
    require (valid_probe_kind probe.kind) invalid_change_plan
    require (bound_in (canonical_zone probe.zone) (find interface_id interfaces))
        invalid_change_plan
    reject (any (λ s. s =s id) seen) invalid_change_plan
    rest ← probes_loop interfaces (id ∷ seen) probes
    ok (
        record probe { id = id; interface_id = interface_id; zone = canonical_zone probe.zone }
        ∷ rest)

  -- canonicalProbes
  unfoldable pub canonical_probes :
      List ConnectivityProbe → Store InterfaceIntent → Result NetworkError (List ConnectivityProbe)
  canonical_probes input interfaces = do
    reject (is_empty input || ltb max_probes_per_plan (length input)) invalid_change_plan
    found ← probes_loop interfaces [] input
    ok (sort probe_less found)

  -- `plan.PlanID = changePlanID(plan)`, where the digest is that of the plan with no id
  abbrev pub identified : ChangePlan → ChangePlan
  identified plan = record plan { plan_id = plan_digest (record plan { plan_id = "" }) }

  -- BuildChangePlan
  unfoldable pub build_change_plan : ChangePlanRequest → Result NetworkError ChangePlan
  build_change_plan request = do
    node_id ← normalize_identifier request.node_id
    revision_id ← normalize_identifier request.revision_id
    validate_timeouts request.timeouts
    found ← canonical_interfaces request.interfaces
    forwarding ← canonical_forwarding request.forwarding found.1
    probes ← canonical_probes request.probes found.1
    validate_probe_coverage found.0 probes
    ok (
        identified (record {
          schema_version = "network.change.plan/v1";
          plan_id = "";
          node_id = node_id;
          revision_id = revision_id;
          interfaces = found.0;
          forwarding = forwarding;
          forwarding_default_deny = true;
          probes = probes;
          timeouts = request.timeouts;
          steps = plan_steps;
        }))
