-- ===== src/Network/Policy.antt =====
-- internal/networkpolicy/policy.go: zones and the authorization of forwarding between them.
-- A zone is a string in the source, and stays one here.
use control_center_developme.Prelude.{
  String, Bool, not, ◌&&◌, ◌||◌, ◌=s◌, if◌then◌else◌, Result, ok, err, ◌>>◌, require,
}

-- The sentinels of the package; `plain` is an error made by `errors.New` with its text.
pub data NetworkError : Type 0 where
  invalid_zone forwarding_disabled edge_gateway_required invalid_change_plan
        invalid_change_transition change_version_conflict event_idempotency_conflict :
      NetworkError
  plain : String → NetworkError

-- Zone.Valid
unfoldable pub valid_zone : String → Bool
valid_zone z =
    z =s "WAN"
    || z =s "LAN"
    || z =s "MANAGEMENT"
    || z =s "DMZ"
    || z =s "CLUSTER"
    || z =s "STORAGE"
    || z =s "BACKUP"

pub record ForwardingIntent : Type 0 where
  pub source : String
  pub destination : String
  pub explicitly_enabled : Bool
  pub edge_gateway_assigned : Bool

-- AuthorizeForwarding
unfoldable pub authorize_forwarding : ForwardingIntent → Result NetworkError (Unit {0})
authorize_forwarding intent = do
  require (valid_zone intent.source) invalid_zone
  require (valid_zone intent.destination) invalid_zone
  if intent.source =s intent.destination
      then ok tt
      else if not intent.explicitly_enabled
      then err forwarding_disabled
      else if (intent.source =s "WAN" || intent.destination =s "WAN")
          && not intent.edge_gateway_assigned
      then err edge_gateway_required
      else ok tt
