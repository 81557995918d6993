-- ===== src/Proxy.antt =====
-- internal/pkg/ingressproxy/proxy.go: the loopback proxy that takes a matched prefix off the path.
pub mod Table
pub mod Owned
pub mod Serving
pub mod Removal
pub mod Merge
pub mod Commit
mod Tests
use tunnel_manager.Prelude.{
  ℕ, Bool, true, false, not, ◌&&◌, ◌||◌, List, [], ◌∷◌, ◌++◌, map, Option, none, some, Result, ok,
  err, Error, external, wrap, refuse, ◌>>=◌, ◌>>◌, if◌then◌else◌,
}
use tunnel_manager.Prelude.Text.{Bytes, codes, slash, text_eq, has_prefix, trim_prefix, trim_dot}
use tunnel_manager.Prelude.Text.Space.{trim_space, to_lower}
use tunnel_manager.Prelude.Text.Order.{path_before, sort}
use tunnel_manager.Model.{DomainRoute, Url, UrlLibrary}

-- The packages `net`, `net/url` and `unicode`, as far as the proxy calls them. `parse_ip` gives the
-- 16-byte form of an address.
pub record NetLibrary : Type 0 where
  pub urls : UrlLibrary
  pub split_host_port : Bytes → Result (Bytes × Bytes)
  pub parse_ip : Bytes → Option Bytes
  pub is_loopback : Bytes → Bool
  pub equal_fold : Bytes → Bytes → Bool
  pub unicode : Bytes → Bytes

-- The reverse proxy of a route is the target that it was made for.
pub record ProxyRoute : Type 0 where
  pub domain_id : Bytes
  pub path : Bytes
  pub target : Bytes

pub record DomainSnapshot : Type 0 where
  pub hostname : Bytes
  pub routes : List DomainRoute

-- `by_domain` is a map from domain identifiers, as the list of its entries; `routes` is the map
-- from hostnames that requests read.
pub record ProxyServer : Type 0 where
  pub addr : Bytes
  pub by_domain : List (Bytes × DomainSnapshot)
  pub routes : Bytes → List ProxyRoute

unfoldable pub new : Bytes → ProxyServer
new addr = record { addr = addr; by_domain = []; routes = λ host. [] }

unfoldable pub url : ProxyServer → Bytes
url p = codes "http://" ++ p.addr

unfoldable pub proxy_route : Bytes → DomainRoute → ProxyRoute
proxy_route domain_id r = record { domain_id = domain_id; path = r.path; target = r.origin_url }

-- `next[hostname]` before the sorting.
unfoldable pub gather : Bytes → List (Bytes × DomainSnapshot) → List ProxyRoute
unfolding proxy_route
gather hostname [] = []
gather hostname ((domain_id, d) ∷ rest) =
    let later = gather hostname rest in
    if text_eq d.hostname hostname then map (proxy_route domain_id) d.routes ++ later else later

abbrev pub proxy_before : ProxyRoute → ProxyRoute → Bool
proxy_before a b = path_before a.path b.path

pub rebuild : List (Bytes × DomainSnapshot) → Bytes → List ProxyRoute
unfolding gather
rebuild by_domain hostname = sort proxy_before (gather hostname by_domain)

-- `rebuildLocked`.
rebuild_locked : ProxyServer → ProxyServer
rebuild_locked p = record p { routes = rebuild p.by_domain }

pub without : Bytes → List (Bytes × DomainSnapshot) → List (Bytes × DomainSnapshot)
without k [] = []
without k ((j, d) ∷ rest) =
    let later = without k rest in if text_eq j k then later else (j, d) ∷ later

unfoldable pub remove_domain : ProxyServer → Bytes → ProxyServer
unfolding rebuild_locked without
remove_domain p domain_id = rebuild_locked (record p { by_domain = without domain_id p.by_domain })

unfoldable pub normalize_hostname : NetLibrary → Bytes → Bytes
normalize_hostname net host = trim_dot (
    to_lower net.unicode
      (trim_space (elim (net.split_host_port host) [ ok (h, port) ↦ h | err e ↦ host ])))

abbrev is_loopback_ip : NetLibrary → Option Bytes → Bool
is_loopback_ip net none = false
is_loopback_ip net (some ip) = net.is_loopback ip

abbrev same_ip : Option Bytes → Option Bytes → Bool
same_ip (some a) (some b) = text_eq a b
same_ip _ _ = false

same_host : NetLibrary → Bytes → Bytes → Bool
same_host net left right =
    let left_loopback =
      net.equal_fold left (codes "localhost") || is_loopback_ip net (net.parse_ip left) in
    let right_loopback =
      net.equal_fold right (codes "localhost") || is_loopback_ip net (net.parse_ip right) in
    if left_loopback && right_loopback
    then true
    else same_ip (net.parse_ip left) (net.parse_ip right)

abbrev same_split : NetLibrary → Result (Bytes × Bytes) → Result (Bytes × Bytes) → Bool
same_split net (ok (left, left_port)) (ok (right, right_port)) =
    if text_eq left_port right_port then same_host net left right else false
same_split net _ _ = false

unfoldable pub same_endpoint : NetLibrary → Bytes → Bytes → Bool
unfolding same_host
same_endpoint net left right = same_split net (net.split_host_port left) (net.split_host_port right)

-- The body of the loop for a route that strips its prefix.
pub check_target : NetLibrary → Bytes → DomainRoute → Result (Unit {0})
unfolding same_endpoint
check_target net addr route = elim (net.urls.parse route.origin_url) [
  | err e ↦ err (external (codes "ingressproxy: invalid origin URL"))
  | ok target ↦
      (refuse (text_eq target.scheme [] || text_eq target.host [])
        (external (codes "ingressproxy: invalid origin URL")))
      >> refuse (same_endpoint net target.host addr)
          (external (codes "ingressproxy: origin cannot target the ingress proxy"))
]

pub checked_routes : NetLibrary → Bytes → List DomainRoute → Result (List DomainRoute)
unfolding check_target
checked_routes net addr [] = ok []
checked_routes net addr (route ∷ routes) =
    let later = checked_routes net addr routes in
    if route.strip_prefix
    then (do check_target net addr route; rest ← later; ok (route ∷ rest))
    else later

-- `p.byDomain[domainID] = …`
abbrev store : ProxyServer → Bytes → DomainSnapshot → ProxyServer
store p domain_id d = record p { by_domain = (domain_id, d) ∷ without domain_id p.by_domain }

pub install :
    NetLibrary
    → ProxyServer
    → Bytes
    → Bytes
    → Result (List DomainRoute)
    → ProxyServer × Result (Unit {0})
unfolding rebuild_locked without
install net p domain_id hostname (err e) = (p, err e)
install net p domain_id hostname (ok filtered) =
    (rebuild_locked (store p domain_id (record { hostname = hostname; routes = filtered })), ok tt)

unfoldable pub replace_domain :
    NetLibrary → ProxyServer → Bytes → Bytes → List DomainRoute → ProxyServer × Result (Unit {0})
unfolding install checked_routes normalize_hostname
replace_domain net p domain_id hostname routes =
    let host = normalize_hostname net hostname in
    install net p domain_id host (
      refuse (text_eq host []) (external (codes "ingressproxy: hostname is required"))
      >> checked_routes net p.addr routes)

unfoldable pub strips : List DomainRoute → List DomainRoute
strips [] = []
strips (r ∷ rs) = let later = strips rs in if r.strip_prefix then r ∷ later else later

-- Whether the map `newStripped` has the path.
unfoldable pub has_path : Bytes → List DomainRoute → Bool
has_path p [] = false
has_path p (r ∷ rs) = text_eq r.path p || has_path p rs

strips_unless : List DomainRoute → List DomainRoute → List DomainRoute
unfolding has_path
strips_unless new [] = []
strips_unless new (r ∷ rs) =
    let later = strips_unless new rs in
    if not r.strip_prefix then later else if has_path r.path new then later else r ∷ later

unfoldable pub merged : List DomainRoute → List DomainRoute → List DomainRoute
unfolding strips strips_unless
merged old_routes new_routes = strips new_routes ++ strips_unless (strips new_routes) old_routes

unfoldable pub prepare_domain :
    NetLibrary
    → ProxyServer
    → Bytes
    → Bytes
    → List DomainRoute
    → List DomainRoute
    → ProxyServer × Result (Unit {0})
unfolding replace_domain
prepare_domain net p domain_id hostname old_routes new_routes =
    replace_domain net p domain_id hostname (merged old_routes new_routes)

-- `CommitDomain`, and `RollbackDomain`, which has the same body.
unfoldable pub commit_domain :
    NetLibrary → ProxyServer → Bytes → Bytes → List DomainRoute → ProxyServer × Result (Unit {0})
unfolding replace_domain
commit_domain net p domain_id hostname routes = replace_domain net p domain_id hostname routes

unfoldable pub matches_prefix : Bytes → Bytes → Bool
matches_prefix path prefix = text_eq path prefix || has_prefix path (prefix ++ slash ∷ [])

-- What the proxy reads and writes of a request; `is_tls` is `r.TLS != nil`.
pub record Request : Type 0 where
  pub host : Bytes
  pub path : Bytes
  pub raw_path : Bytes
  pub forwarded_host : Bytes
  pub forwarded_proto : Bytes
  pub forwarded_prefix : Bytes
  pub is_tls : Bool

pub data Served : Type 0 where
  proxied : ProxyRoute → Request → Served
  not_found : Served

unfoldable pub forward : ProxyRoute → Request → Request
forward route r =
    let path = trim_prefix r.path route.path in
    record r {
      path = if text_eq path [] then slash ∷ [] else path;
      raw_path = [];
      forwarded_host = r.host;
      forwarded_proto =
          if text_eq r.forwarded_proto []
          then (if r.is_tls then codes "https" else codes "http")
          else r.forwarded_proto;
      forwarded_prefix = route.path;
    }

pub first_match : List ProxyRoute → Request → Served
unfolding forward
first_match [] r = not_found
first_match (route ∷ routes) r =
    let later = first_match routes r in
    if not (matches_prefix r.path route.path) then later else proxied route (forward route r)

unfoldable pub serve_http : NetLibrary → ProxyServer → Request → Served
unfolding first_match
serve_http net p r = first_match (p.routes (normalize_hostname net r.host)) r
