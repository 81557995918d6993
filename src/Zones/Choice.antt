-- ===== src/Zones/Choice.antt =====
-- Which hostnames internal/services/domain/zones.go accepts.
use tunnel_manager.Prelude.{
  ◌≡◌, ◌↔◌, ◌⊎◌, inl, inr, true, false, not, ◌&&◌, ◌||◌, List, [], ◌∷◌, ◌++◌, ok, arith, Bool-cases,
}
use mathlib.Core.Path.{subst}
use tunnel_manager.Prelude.Text.{Bytes, codes, text_eq, text_eq_iff, has_suffix}
use tunnel_manager.Model.{CloudflareZone}
use tunnel_manager.Zones.{normalize_dns_name, validate_zone_hostname}

-- `h` is the zone's name or a name below it.
abbrev pub Holds : (Bytes → Bytes) → CloudflareZone → Bytes → Type 0
Holds unicode zone h =
    (h ≡ normalize_dns_name unicode zone.name)
    ⊎ (has_suffix h (codes "." ++ normalize_dns_name unicode zone.name) ≡ true)

-- The first active zone with the identifier holds the hostname.
pub data Chosen (unicode : Bytes → Bytes) (zone_id h : Bytes) : List CloudflareZone → Type 0 where
  this :
      (zone : CloudflareZone) (zones : List CloudflareZone)
      → zone.id ≡ zone_id
      → zone.status ≡ codes "active"
      → Holds unicode zone h
      → Chosen unicode zone_id h (zone ∷ zones)
  other :
      (zone : CloudflareZone) (zones : List CloudflareZone)
      → (text_eq zone.id zone_id && text_eq zone.status (codes "active")) ≡ false
      → Chosen unicode zone_id h zones
      → Chosen unicode zone_id h (zone ∷ zones)

module _ (unicode : Bytes → Bytes) where
  sound :
      (zones : List CloudflareZone) (zone_id hostname h : Bytes)
      → validate_zone_hostname unicode zones zone_id hostname ≡ ok h
      → (h ≡ normalize_dns_name unicode hostname) × Chosen unicode zone_id h zones
  unfolding validate_zone_hostname
  sound [] zone_id hostname h e = cc
  sound (zone ∷ zones) zone_id hostname h e =
      elim (Bool-cases
        (not (text_eq zone.id zone_id) || not (text_eq zone.status (codes "active")))) [
          | inl skip ↦
              let (a, b) = sound zones zone_id hostname h (rw skip at e) in
              (a, other zone zones (ground arith) b)
          | inr hit ↦
              let held : (h ≡ normalize_dns_name unicode hostname) × Holds unicode zone h = ground (
                arith,
                text_eq_iff (normalize_dns_name unicode hostname)
                    (normalize_dns_name unicode zone.name),
              ) in
              (
                held.0,
                this zone zones (ground (arith, text_eq_iff zone.id zone_id))
                    (ground (arith, text_eq_iff zone.status (codes "active"))) held.1,
              )
        ]

  complete :
      (zone_id hostname : Bytes) (zones : List CloudflareZone)
      → Chosen unicode zone_id (normalize_dns_name unicode hostname) zones
      → validate_zone_hostname unicode zones zone_id hostname
        ≡ ok (normalize_dns_name unicode hostname)
  unfolding validate_zone_hostname
  complete zone_id hostname zones (this zone zones' same active held) = ground (
    arith,
    text_eq_iff zone.id zone_id,
    text_eq_iff zone.status (codes "active"),
    text_eq_iff (normalize_dns_name unicode hostname) (normalize_dns_name unicode zone.name),
  )
  complete zone_id hostname zones (other zone zones' skip later) =
      ground (arith, complete zone_id hostname zones' later)

  -- A hostname is accepted as `h` exactly when `h` is its normal form, and the first active zone
  -- with the identifier has the name `h` or a name that `h` lies below.
  pub validate_zone_hostname_iff :
      (zones : List CloudflareZone) (zone_id hostname h : Bytes)
      → (validate_zone_hostname unicode zones zone_id hostname ≡ ok h)
        ↔ ((h ≡ normalize_dns_name unicode hostname) × Chosen unicode zone_id h zones)
  validate_zone_hostname_iff zones zone_id hostname h = (
    sound zones zone_id hostname h,
    λ (same, chosen).
        rw same (
          complete zone_id hostname zones
            (subst (λ x. Chosen unicode zone_id x zones) same chosen)),
  )
