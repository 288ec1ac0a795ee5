-- ===== src/Network/Planning.antt =====
-- For internal/networkpolicy/change_plan.go: the plans that BuildChangePlan returns.
use control_center_developme.Prelude.Sort.{sort, sort-All}
use control_center_developme.Prelude.Lists.{OneOf}
use control_center_developme.Prelude.{
  ℕ, ◌*◌, ◌<◌, ◌≤◌, String, ◌≡◌, ◌≢◌, ◌⊎◌, refl, sym, inl, inr, true, false, not, ◌&&◌, arith, List,
  [], ◌∷◌, any, Result-cases, Bool-cases, ◌=s◌, =s_iff, ok, is_ok, All, All-map_pointwise, Store,
}
use control_center_developme.Network.Policy.{ForwardingIntent, valid_zone, authorize_forwarding}
use control_center_developme.Network.Plan.{
  ChangePlan, ChangePlanRequest, ConnectivityProbe, InterfaceIntent, PlanPlatform, TimeoutPolicy,
  build_change_plan, canonical_forwarding, canonical_intent, canonical_interfaces, covered,
  forwarding_loop, is_management_probe, validate_probe_coverage, validate_timeouts, forwarding_less,
}

-- Every changed interface is probed.
abbrev pub IsProbed : List ConnectivityProbe → List InterfaceIntent → Type 0
IsProbed probes interfaces =
    All
      (λ (item : InterfaceIntent).
        (item.changed ≡ false)
        ⊎ OneOf (λ (p : ConnectivityProbe). p.interface_id ≡ item.interface_id) probes)
      interfaces

-- A probe of the control plane in a zone from which it is managed.
abbrev pub IsManaging : ConnectivityProbe → Type 0
IsManaging p = (p.kind ≡ "control_plane") × (p.zone ≡ "MANAGEMENT" ⊎ p.zone ≡ "LAN")

-- Between different zones, a flow is enabled by name, and to or from the WAN it has an edge gateway.
abbrev pub IsForwardable : ForwardingIntent → Type 0
IsForwardable intent =
    (intent.source ≡ intent.destination)
    ⊎ ((intent.explicitly_enabled ≡ true)
        × ((intent.edge_gateway_assigned ≡ true)
            ⊎ (intent.source ≢ "WAN" × intent.destination ≢ "WAN")))

-- A flow between valid zones that is one of those asked for, in its canonical form.
pub record IsAuthorized (canonical : ForwardingIntent → ForwardingIntent)
    (asked : List ForwardingIntent) (intent : ForwardingIntent) : Type 0 where
  pub valid : (valid_zone intent.source ≡ true) × (valid_zone intent.destination ≡ true)
  pub forwardable : IsForwardable intent
  pub given : OneOf (λ raw. canonical raw ≡ intent) asked

-- A phase lasts for some time, at most for a quarter of an hour in nanoseconds.
abbrev pub IsPhase : ℕ → Type 0
IsPhase duration = (0 < duration) × (duration ≤ 15 * 60 * 1000000000)

pub record IsTimely (t : TimeoutPolicy) : Type 0 where
  pub snapshot : IsPhase t.snapshot
  pub preflight : IsPhase t.preflight
  pub apply_window : IsPhase t.apply_window
  pub probe : IsPhase t.probe
  pub rollback : IsPhase t.rollback
  pub nested : t.probe ≤ t.apply_window

pub record IsReady (canonical : ForwardingIntent → ForwardingIntent) (request : ChangePlanRequest)
    (plan : ChangePlan) : Type 0 where
  pub probed : IsProbed plan.probes plan.interfaces
  pub managed : OneOf IsManaging plan.probes
  pub authorized : All (IsAuthorized canonical request.forwarding) plan.forwarding
  pub timely : IsTimely plan.timeouts
  pub same_timeouts : plan.timeouts ≡ request.timeouts

validate_timeouts-IsTimely : (t : TimeoutPolicy) → validate_timeouts t ≡ ok tt → IsTimely t
unfolding validate_timeouts
validate_timeouts-IsTimely t h = ground arith

covered-OneOf :
    (probes : List ConnectivityProbe) (id : String)
    → covered probes id ≡ true
    → OneOf (λ (p : ConnectivityProbe). p.interface_id ≡ id) probes
unfolding covered any
covered-OneOf [] id h = absurd (cc h)
covered-OneOf (p ∷ ps) id h = elim (Bool-cases (p.interface_id =s id)) [
  | inl e ↦ inl ((=s_iff p.interface_id id).0 e)
  | inr e ↦ inr (covered-OneOf ps id (ground arith))
]

managed-OneOf :
    (probes : List ConnectivityProbe)
    → any is_management_probe probes ≡ true
    → OneOf IsManaging probes
unfolding is_management_probe any
managed-OneOf [] h = absurd (cc h)
managed-OneOf (p ∷ ps) h = elim (Bool-cases (is_management_probe p)) [
  | inl e ↦ inl (
      ground
        (arith, =s_iff p.kind "control_plane", =s_iff p.zone "MANAGEMENT", =s_iff p.zone "LAN"))
  | inr e ↦ inr (managed-OneOf ps (ground arith))
]

unprobed_none :
    (probes : List ConnectivityProbe) (interfaces : List InterfaceIntent)
    → any
        (λ (item : InterfaceIntent). item.changed && not (covered probes item.interface_id))
        interfaces
      ≡ false
    → IsProbed probes interfaces
unfolding any
unprobed_none probes [] h = tt
unprobed_none probes (item ∷ items) h = (
  elim (Bool-cases item.changed) [
    | inl e ↦ inr (covered-OneOf probes item.interface_id (ground arith))
    | inr e ↦ inl e
  ],
  unprobed_none probes items (ground arith),
)

validate_probe_coverage-IsProbed :
    (interfaces : List InterfaceIntent) (probes : List ConnectivityProbe) {u : Unit {0}}
    → validate_probe_coverage interfaces probes ≡ ok u
    → IsProbed probes interfaces × OneOf IsManaging probes
unfolding validate_probe_coverage
validate_probe_coverage-IsProbed interfaces probes h =
    (unprobed_none probes interfaces (ground arith), managed-OneOf probes (ground arith))

not-eq : (a b : String) → (a =s b) ≡ false → a ≢ b
not-eq a b h p = absurd (cc (h, (=s_iff a b).1 p))

authorize_forwarding-IsForwardable :
    (intent : ForwardingIntent)
    → is_ok (authorize_forwarding intent) ≡ true
    → (valid_zone intent.source ≡ true)
      × (valid_zone intent.destination ≡ true)
      × IsForwardable intent
unfolding authorize_forwarding
authorize_forwarding-IsForwardable intent h = (
  ground arith,
  ground arith,
  elim (Bool-cases (intent.source =s intent.destination)) [
    | inl e ↦ inl ((=s_iff intent.source intent.destination).0 e)
    | inr e ↦ inr (
      ground arith,
      elim (Bool-cases intent.edge_gateway_assigned) [
        | inl g ↦ inl g
        | inr g ↦ inr (
          not-eq intent.source "WAN" (ground arith),
          not-eq intent.destination "WAN" (ground arith),
        )
      ],
    )
  ],
)

IsAuthorized-later :
    (canonical : ForwardingIntent → ForwardingIntent) (raw : ForwardingIntent)
    (asked found : List ForwardingIntent)
    → All (IsAuthorized canonical asked) found
    → All (IsAuthorized canonical (raw ∷ asked)) found
IsAuthorized-later canonical raw asked found h =
    All-map_pointwise found
      (λ intent a. record { valid = a.valid; forwardable = a.forwardable; given = inr a.given }) h

module _ (platform : PlanPlatform) where
  forwarding_step :
      (interfaces : Store InterfaceIntent) (seen : List ForwardingIntent)
      (intent : ForwardingIntent) (intents found : List ForwardingIntent)
      → forwarding_loop platform interfaces seen (intent ∷ intents) ≡ ok found
      → (rest : List ForwardingIntent) × (forwarding_loop platform interfaces
            (canonical_intent platform intent ∷ seen)
            intents
          ≡ ok rest)
        × (is_ok (authorize_forwarding (canonical_intent platform intent)) ≡ true)
        × (canonical_intent platform intent ∷ rest ≡ found)
  unfolding forwarding_loop
  forwarding_step interfaces seen intent intents found h = ground arith

  forwarding_loop-IsAuthorized :
      (interfaces : Store InterfaceIntent) (seen intents found : List ForwardingIntent)
      → forwarding_loop platform interfaces seen intents ≡ ok found
      → All (IsAuthorized (canonical_intent platform) intents) found
  forwarding_loop-IsAuthorized interfaces seen [] found h =
      unfold forwarding_loop in let e : [] ≡ found = cc h in rw (sym e) tt
  forwarding_loop-IsAuthorized interfaces seen (intent ∷ intents) found h =
      let (rest, more, allowed, e) = forwarding_step interfaces seen intent intents found h in
      let (source, destination, forwardable) =
        authorize_forwarding-IsForwardable (canonical_intent platform intent) allowed in
      rw (sym e) (
        record { valid = (source, destination); forwardable = forwardable; given = inl refl },
        IsAuthorized-later (canonical_intent platform) intent intents rest (
            forwarding_loop-IsAuthorized interfaces (canonical_intent platform intent ∷ seen)
              intents rest more),
      )

  canonical_forwarding-sorts :
      (input : List ForwardingIntent) (interfaces : Store InterfaceIntent)
      (forwarding : List ForwardingIntent)
      → canonical_forwarding platform input interfaces ≡ ok forwarding
      → (found : List ForwardingIntent) × (forwarding_loop platform interfaces [] input ≡ ok found)
        × (sort forwarding_less found ≡ forwarding)
  unfolding canonical_forwarding
  canonical_forwarding-sorts input interfaces forwarding h = ground arith

  canonical_forwarding-IsAuthorized :
      (input : List ForwardingIntent) (interfaces : Store InterfaceIntent)
      (forwarding : List ForwardingIntent)
      → canonical_forwarding platform input interfaces ≡ ok forwarding
      → All (IsAuthorized (canonical_intent platform) input) forwarding
  canonical_forwarding-IsAuthorized input interfaces forwarding h =
      let (found, loop, sorted) = canonical_forwarding-sorts input interfaces forwarding h in
      rw (sym sorted) (
        sort-All forwarding_less (IsAuthorized (canonical_intent platform) input) found
          (forwarding_loop-IsAuthorized interfaces [] input found loop))

  build_change_plan-parts :
      (request : ChangePlanRequest) (plan : ChangePlan)
      → build_change_plan platform request ≡ ok plan
      → (found : List InterfaceIntent × Store InterfaceIntent) × (canonical_forwarding platform
            request.forwarding found.1
          ≡ ok plan.forwarding)
        × (validate_probe_coverage plan.interfaces plan.probes ≡ ok tt)
        × (validate_timeouts request.timeouts ≡ ok tt)
        × (plan.timeouts ≡ request.timeouts)
  unfolding build_change_plan
  build_change_plan-parts request plan h =
      elim (Result-cases (canonical_interfaces platform request.interfaces)) [
        | inl (found, e) ↦ (found, ground arith, ground arith, ground arith, ground arith)
        | inr (e, r) ↦ absurd (ground arith)
      ]

  -- In a plan that BuildChangePlan returns every changed interface has a probe, a control-plane
  -- probe watches the management or the LAN zone, and the timeouts are those of the request,
  -- positive, at most a quarter of an hour, with the probes within the apply window. Every
  -- forwarding intent is one of the request in its canonical form, between valid zones; if these
  -- differ it is enabled explicitly, and has an edge gateway where one of them is the WAN.
  pub build_change_plan-IsReady :
      (request : ChangePlanRequest) (plan : ChangePlan)
      → build_change_plan platform request ≡ ok plan
      → IsReady (canonical_intent platform) request plan
  build_change_plan-IsReady request plan h =
      let (found, forwarding, coverage, timed, same) = build_change_plan-parts request plan h in
      let (probed, managed) =
        validate_probe_coverage-IsProbed plan.interfaces plan.probes coverage in
      record {
        probed = probed;
        managed = managed;
        authorized =
            canonical_forwarding-IsAuthorized request.forwarding found.1 plan.forwarding forwarding;
        timely = validate_timeouts-IsTimely plan.timeouts (rw same timed);
        same_timeouts = same;
      }
