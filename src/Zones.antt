-- ===== src/Zones.antt =====
-- internal/services/domain/zones.go: which hostnames a Cloudflare zone may hold.
pub mod Choice
mod Tests
use tunnel_manager.Prelude.{
  Bool, not, ◌&&◌, ◌||◌, List, [], ◌∷◌, ◌++◌, Result, ok, err, sentinel, invalid_zone,
  if◌then◌else◌,
}
use tunnel_manager.Prelude.Text.{Bytes, codes, text_eq, has_suffix, trim_dot}
use tunnel_manager.Prelude.Text.Space.{trim_space, to_lower}
use tunnel_manager.Model.{CloudflareZone}

-- The tables of `unicode.ToLower` are the first argument.
unfoldable pub normalize_dns_name : (Bytes → Bytes) → Bytes → Bytes
normalize_dns_name unicode value = trim_dot (to_lower unicode (trim_space value))

unfoldable pub validate_zone_hostname :
    (Bytes → Bytes) → List CloudflareZone → Bytes → Bytes → Result Bytes
validate_zone_hostname unicode [] zone_id hostname = err (sentinel invalid_zone)
validate_zone_hostname unicode (zone ∷ zones) zone_id hostname =
    let rest = validate_zone_hostname unicode zones zone_id hostname in
    let normalized_hostname = normalize_dns_name unicode hostname in
    let zone_name = normalize_dns_name unicode zone.name in
    if not (text_eq zone.id zone_id) || not (text_eq zone.status (codes "active"))
    then rest
    else if text_eq normalized_hostname zone_name
        || has_suffix normalized_hostname (codes "." ++ zone_name)
    then ok normalized_hostname
    else err (sentinel invalid_zone)
