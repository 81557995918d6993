-- ===== src/Proxy/Removal.antt =====
-- What `RemoveDomain` of internal/pkg/ingressproxy does to the tables and to requests.
use tunnel_manager.Prelude.{
  ◌≡◌, refl, inl, inr, false, List, [], ◌∷◌, map, All, All-append, Bool-cases,
}
use mathlib.Core.Path.{subst}
use tunnel_manager.Prelude.Text.{Bytes, text_eq}
use tunnel_manager.Prelude.Text.Order.{All-sort}
use tunnel_manager.Model.{DomainRoute}
use tunnel_manager.Proxy.{
  NetLibrary, DomainSnapshot, ProxyRoute, ProxyServer, proxy_route, gather, rebuild, proxy_before,
  without, remove_domain, normalize_hostname, Request, proxied, serve_http, first_match,
  matches_prefix, forward,
}
use tunnel_manager.Proxy.Table.{IsBuilt}

-- No request is served by a route of the domain.
abbrev pub IsUnserved : Bytes → ProxyServer → Type 0
IsUnserved id p =
    (net : NetLibrary) (r : Request) (route : ProxyRoute) (r' : Request)
    → serve_http net p r ≡ proxied route r'
    → text_eq route.domain_id id ≡ false

abbrev IsOther : Bytes → ProxyRoute → Type 0
IsOther id route = text_eq route.domain_id id ≡ false

map-IsOther :
    (id j : Bytes) (routes : List DomainRoute)
    → text_eq j id ≡ false
    → All (IsOther id) (map (proxy_route j) routes)
unfolding proxy_route
map-IsOther id j [] h = tt
map-IsOther id j (r ∷ routes) h = (h, map-IsOther id j routes h)

gather-without :
    (id host : Bytes) (l : List (Bytes × DomainSnapshot))
    → All (IsOther id) (gather host (without id l))
unfolding gather without
gather-without id host [] = tt
gather-without id host ((j, d) ∷ l) =
    let later = gather-without id host l in
    elim (Bool-cases (text_eq j id)) [
      | inl same ↦ rw same later
      | inr other ↦ elim (Bool-cases (text_eq d.hostname host)) [
        | inr elsewhere ↦ rw (other, elsewhere) later
        | inl here ↦
            rw (other, here)
              (All-append (IsOther id) (map (proxy_route j) d.routes) (gather host (without id l))
                (map-IsOther id j d.routes other) later)
      ]
    ]

served : {x route : ProxyRoute} {q r' : Request} → proxied x q ≡ proxied route r' → x ≡ route
served e = cc

first_match-IsOther :
    (id : Bytes) (routes : List ProxyRoute) (r : Request) (route : ProxyRoute) (r' : Request)
    → All (IsOther id) routes
    → first_match routes r ≡ proxied route r'
    → IsOther id route
unfolding first_match
first_match-IsOther id [] r route r' h e = cc
first_match-IsOther id (x ∷ routes) r route r' (h, hs) e =
    elim (Bool-cases (matches_prefix r.path x.path)) [
      | inr missed ↦ first_match-IsOther id routes r route r' hs (simp missed at e)
      | inl hit ↦
          let e' : proxied x (forward x r) ≡ proxied route r' = simp hit at e in
          subst (IsOther id) (served e') h
    ]

pub remove_domain-IsBuilt : (p : ProxyServer) (id : Bytes) → IsBuilt (remove_domain p id)
unfolding remove_domain
remove_domain-IsBuilt p id host = refl

pub remove_domain-IsUnserved : (p : ProxyServer) (id : Bytes) → IsUnserved id (remove_domain p id)
unfolding remove_domain serve_http rebuild
remove_domain-IsUnserved p id net r route r' e =
    let host = normalize_hostname net r.host in
    first_match-IsOther id (rebuild (without id p.by_domain) host) r route r'
      (All-sort proxy_before (IsOther id) (gather host (without id p.by_domain))
        (gather-without id host p.by_domain))
      e
