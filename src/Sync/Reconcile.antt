-- ===== src/Sync/Reconcile.antt =====
-- For internal/sitesync/state.go: one call of Reconcile.
use control_center_developme.Prelude.{Bool, true, false, =s_iff, ok, arith, ◌≡◌, ap, ◌<◌, ◌⊎◌}
use control_center_developme.Sync.Records.{
  Authority, choose, Record, reconcile, unknown_kind, unknown_authority, same_authority, same_kind,
  StateKind, validate_record,
}

-- The records are revisions of one object: the same site, resource, kind and authority.
pub record SameObject (r s : Record) : Type 0 where
  pub site : r.site_id ≡ s.site_id
  pub resource : r.resource_id ≡ s.resource_id
  pub kind : r.kind ≡ s.kind
  pub authority : r.authority ≡ s.authority

same_kind-eq : (k l : StateKind) → same_kind k l ≡ true → k ≡ l
same_kind-eq (unknown_kind k) (unknown_kind l) h = ap unknown_kind ((=s_iff k l).0 h)
same_kind-eq k l h = ground arith

same_authority-eq : (a b : Authority) → same_authority a b ≡ true → a ≡ b
same_authority-eq (unknown_authority a) (unknown_authority b) h =
    ap unknown_authority ((=s_iff a b).0 h)
same_authority-eq a b h = ground arith

-- What an accepted reconciliation does.
pub record IsReconciled (current incoming : Record) (result : Record × Bool) : Type 0 where
  pub same_object : SameObject current incoming
  pub valid : validate_record incoming ≡ ok tt
  pub outcome :
      ((result ≡ (incoming, true)) × (current.generation < incoming.generation))
      ⊎ ((result ≡ (current, false)) × (current ≡ incoming))

choose-outcome :
    (current incoming : Record) (result : Record × Bool)
    → SameObject current incoming
    → choose current incoming ≡ ok result
    → ((result ≡ (incoming, true)) × (current.generation < incoming.generation))
      ⊎ ((result ≡ (current, false)) × (current ≡ incoming))
unfolding choose
choose-outcome current incoming result same h = ground (
  arith,
  same.site,
  same.resource,
  same.kind,
  same.authority,
  =s_iff incoming.resource_version current.resource_version,
  =s_iff incoming.payload_hash current.payload_hash,
)

reconcile-parts :
    (current incoming : Record) (result : Record × Bool)
    → reconcile current incoming ≡ ok result
    → (validate_record incoming ≡ ok tt)
      × (current.site_id ≡ incoming.site_id)
      × (current.resource_id ≡ incoming.resource_id)
      × (same_kind current.kind incoming.kind ≡ true)
      × (same_authority current.authority incoming.authority ≡ true)
      × (choose current incoming ≡ ok result)
unfolding reconcile
reconcile-parts current incoming result h =
    let site = =s_iff current.site_id incoming.site_id in
    let resource = =s_iff current.resource_id incoming.resource_id in
    (
      ground arith,
      ground (arith, site),
      ground (arith, resource),
      ground arith,
      ground arith,
      ground arith,
    )

-- A reconciliation that is accepted is between revisions of one object, the incoming one valid:
-- either the incoming revision is of a later generation and replaces the current one, or the two
-- are equal and nothing changes.
pub reconcile-IsReconciled :
    (current incoming : Record) (result : Record × Bool)
    → reconcile current incoming ≡ ok result
    → IsReconciled current incoming result
reconcile-IsReconciled current incoming result h =
    let (valid, site, resource, kind, authority, chosen) =
      reconcile-parts current incoming result h in
    let same : SameObject current incoming = record {
      site = site;
      resource = resource;
      kind = same_kind-eq current.kind incoming.kind kind;
      authority = same_authority-eq current.authority incoming.authority authority;
    } in
    record {
      same_object = same;
      valid = valid;
      outcome = choose-outcome current incoming result same chosen;
    }
