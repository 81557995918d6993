-- ===== src/Cloudflare.antt =====
-- internal/pkg/cloudflare/client.go: what the client sends to Cloudflare's API and makes of the
-- answers. The package `cloudflare-go` is the argument `Api`.
pub mod Ingress
pub mod Tunnel
mod Tests
use tunnel_manager.Prelude.{
  ℕ, Bool, true, List, [], ◌∷◌, ◌++◌, Option, none, some, Result, ok, err, Error, external,
  if◌then◌else◌,
}
use tunnel_manager.Prelude.Text.{Bytes, codes, text_eq, trim_dot}
use tunnel_manager.Prelude.Text.Space.{trim_space, to_lower}
use tunnel_manager.Prelude.Text.Order.{text_lt, sort}
use tunnel_manager.Model.{CloudflareZone, TunnelInfo, IngressRule}
use tunnel_manager.Service.World.{wrap_err}

-- zero_trust.TunnelCloudflaredConfigurationUpdateParamsConfigIngress; a field may be left out.
pub record IngressItem : Type 0 where
  pub hostname : Option Bytes
  pub path : Option Bytes
  pub service : Bytes

-- dns.CNAMERecordParam
pub record CnameRecord : Type 0 where
  pub name : Bytes
  pub content : Bytes
  pub ttl : ℕ
  pub proxied : Bool

-- The requests, each with the account or the zone first.
pub data Request : Type 0 where
  list_pages : Bytes → Request
  new_tunnel get_token delete_tunnel : Bytes → Bytes → Request
  put_configuration : Bytes → Bytes → List IngressItem → Request
  new_record : Bytes → CnameRecord → Request
  delete_record : Bytes → Bytes → Request

-- The answers: the zones that the pager yields and the error that it ends with, the identifiers of
-- what is made, and a tunnel's token.
pub record Api : Type 0 where
  pub pages : Bytes → List CloudflareZone × Option Error
  pub made : Request → Result Bytes
  pub done : Request → Result (Unit {0})

-- The requests that were sent, in order, and the result.
abbrev pub Sent : Type 0 → Type 0
Sent A = List Request × Result A

abbrev pub send : {A : Type 0} → Bytes → Request → (Request → Result A) → Sent A
send message q answer = (q ∷ [], wrap_err message (answer q))

infixl 5 ◌>>=◌
abbrev pub ◌>>=◌ : {A B : Type 0} → Sent A → (A → Sent B) → Sent B
(qs, err e) >>= k = (qs, err e)
(qs, ok a) >>= k = (qs ++ (k a).0, (k a).1)

is_active_zone : CloudflareZone → Bool
is_active_zone z = text_eq z.status (codes "active")

abbrev pub zone_before : CloudflareZone → CloudflareZone → Bool
zone_before a b = text_lt a.name b.name

pub collect_zones : (Bytes → Bytes) → List CloudflareZone → List CloudflareZone
unfolding is_active_zone
collect_zones unicode [] = []
collect_zones unicode (z ∷ zs) =
    let later = collect_zones unicode zs in
    if is_active_zone z
    then record z { name = trim_dot (to_lower unicode (trim_space z.name)) } ∷ later
    else later

-- The zones that were read before an error are dropped. Names differ in an account, so that it does
-- not matter that `sort.Slice` is not stable.
unfoldable pub list_zones : (Bytes → Bytes) → Api → Bytes → Sent (List CloudflareZone)
unfolding collect_zones
list_zones unicode api account = elim (api.pages account).1 [
  | some e ↦ (list_pages account ∷ [], wrap_err (codes "cloudflare: list zones") (err e))
  | none ↦
      (list_pages account ∷ [], ok (sort zone_before (collect_zones unicode (api.pages account).0)))
]

unfoldable pub create_tunnel : Api → Bytes → Bytes → Sent TunnelInfo
create_tunnel api account name =
    send (codes "cloudflare: create tunnel") (new_tunnel account name) api.made >>= λ id.
    send (codes "cloudflare: get tunnel token") (get_token account id) api.made >>= λ token.
    ([], ok (record { tunnel_id = id; token = token }))

unfoldable pub ingress_item : Bytes → IngressRule → IngressItem
ingress_item hostname rule = record {
  hostname = some hostname;
  path = if text_eq rule.path [] then none else some rule.path;
  service = rule.service;
}

abbrev pub not_found_item : IngressItem
not_found_item = record { hostname = none; path = none; service = codes "http_status:404" }

pub ingress_items : Bytes → List IngressRule → List IngressItem
unfolding ingress_item
ingress_items hostname [] = not_found_item ∷ []
ingress_items hostname (rule ∷ rules) = ingress_item hostname rule ∷ ingress_items hostname rules

unfoldable pub put_ingress_config : Api → Bytes → Bytes → Bytes → List IngressRule → Sent (Unit {0})
unfolding ingress_items
put_ingress_config api account tunnel hostname [] = (
  [],
  err (
      external (codes "cloudflare: put ingress config: at least one application rule is required")),
)
put_ingress_config api account tunnel hostname (rule ∷ rules) =
    send (codes "cloudflare: put ingress config")
      (put_configuration account tunnel (ingress_items hostname (rule ∷ rules))) api.done

unfoldable pub create_dns_record : Api → Bytes → Bytes → Bytes → Sent Bytes
create_dns_record api zone hostname tunnel =
    send (codes "cloudflare: create dns record")
      (new_record zone (record {
        name = hostname;
        content = tunnel ++ codes ".cfargotunnel.com";
        ttl = 1;
        proxied = true;
      }))
      api.made

unfoldable pub delete_dns_record : Api → Bytes → Bytes → Sent (Unit {0})
delete_dns_record api zone id =
    send (codes "cloudflare: delete dns record") (delete_record zone id) api.done

unfoldable pub delete_tunnel_of : Api → Bytes → Bytes → Sent (Unit {0})
delete_tunnel_of api account tunnel =
    send (codes "cloudflare: delete tunnel") (delete_tunnel account tunnel) api.done
