-- ===== src/Zones/Tests.antt =====
-- The choice of a zone at a concrete input.
use tunnel_manager.Prelude.{◌≡◌, ◌↔◌, List, [], ◌∷◌, ok}
use tunnel_manager.Prelude.Text.{Bytes, codes}
use tunnel_manager.Model.{CloudflareZone}
use tunnel_manager.Zones.{normalize_dns_name, validate_zone_hostname}
use tunnel_manager.Zones.Choice.{Chosen, validate_zone_hostname_iff}

abbrev ascii : Bytes → Bytes
ascii s = s

abbrev two_zones : List CloudflareZone
two_zones =
    record { id = codes "a"; name = codes "x.y"; status = codes "pending" }
    ∷ (record { id = codes "a"; name = codes "y.z"; status = codes "active" } ∷ [])

validate_zone_hostname_iff_example :
    (validate_zone_hostname ascii two_zones (codes "a") (codes "B.y.z.") ≡ ok (codes "b.y.z")) ↔ (
      (codes "b.y.z" ≡ normalize_dns_name ascii (codes "B.y.z."))
      × Chosen ascii (codes "a") (codes "b.y.z") two_zones)
validate_zone_hostname_iff_example =
    validate_zone_hostname_iff ascii two_zones (codes "a") (codes "B.y.z.") (codes "b.y.z")
