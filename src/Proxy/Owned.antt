-- ===== src/Proxy/Owned.antt =====
-- Which routes the map that requests read has for a hostname.
use tunnel_manager.Prelude.{
  ◌≡◌, refl, sym, inl, inr, List, [], ◌∷◌, map, All, All-append, Some, Some-append_left,
  Some-append_right, Bool-cases,
}
use tunnel_manager.Prelude.Text.{Bytes, text_eq, text_eq_iff}
use tunnel_manager.Prelude.Text.Order.{All-sort, Some-sort}
use tunnel_manager.Model.{DomainRoute}
use tunnel_manager.Proxy.{ProxyRoute, DomainSnapshot, proxy_route, gather, rebuild, proxy_before}

-- The route stems from a domain of the table that has the hostname.
abbrev pub IsOwned : List (Bytes × DomainSnapshot) → Bytes → ProxyRoute → Type 0
IsOwned by_domain host route =
    Some
      (λ (e : Bytes × DomainSnapshot).
        (e.1.hostname ≡ host) × Some (λ (r : DomainRoute). route ≡ proxy_route e.0 r) e.1.routes)
      by_domain

map-IsOwned :
    (l : List (Bytes × DomainSnapshot)) (host id : Bytes) (d : DomainSnapshot)
    (taken : List DomainRoute)
    → d.hostname ≡ host
    → All (λ r. Some (λ x. proxy_route id r ≡ proxy_route id x) d.routes) taken
    → All (IsOwned ((id, d) ∷ l) host) (map (proxy_route id) taken)
map-IsOwned l host id d [] same h = tt
map-IsOwned l host id d (r ∷ rs) same (h, hs) = (inl (same, h), map-IsOwned l host id d rs same hs)

own_routes :
    (id : Bytes) (rs : List DomainRoute)
    → All (λ r. Some (λ x. proxy_route id r ≡ proxy_route id x) rs) rs
own_routes id [] = tt
own_routes id (r ∷ rs) = (inl refl, later rs (own_routes id rs))
  where
    later :
        (ss : List DomainRoute)
        → All (λ s. Some (λ x. proxy_route id s ≡ proxy_route id x) rs) ss
        → All (λ s. Some (λ x. proxy_route id s ≡ proxy_route id x) (r ∷ rs)) ss
    later [] h = tt
    later (s ∷ ss) (h, hs) = (inr h, later ss hs)

IsOwned-cons :
    (l : List (Bytes × DomainSnapshot)) (host : Bytes) (e : Bytes × DomainSnapshot)
    (rs : List ProxyRoute)
    → All (IsOwned l host) rs
    → All (IsOwned (e ∷ l) host) rs
IsOwned-cons l host e [] h = tt
IsOwned-cons l host e (r ∷ rs) (h, hs) = (inr h, IsOwned-cons l host e rs hs)

gather-IsOwned :
    (host : Bytes) (l : List (Bytes × DomainSnapshot)) → All (IsOwned l host) (gather host l)
unfolding gather
gather-IsOwned host [] = tt
gather-IsOwned host ((id, d) ∷ l) =
    let later = IsOwned-cons l host (id, d) (gather host l) (gather-IsOwned host l) in
    elim (Bool-cases (text_eq d.hostname host)) [
      | inr other ↦ rw other later
      | inl same ↦ rw same (
          All-append (IsOwned ((id, d) ∷ l) host) (map (proxy_route id) d.routes) (gather host l)
            (map-IsOwned l host id d d.routes ((text_eq_iff d.hostname host).0 same)
              (own_routes id d.routes))
            later)
    ]

-- Every route of a hostname's table is one of a domain with that hostname.
pub rebuild-IsOwned :
    (l : List (Bytes × DomainSnapshot)) (host : Bytes) → All (IsOwned l host) (rebuild l host)
unfolding rebuild
rebuild-IsOwned l host =
    All-sort proxy_before (IsOwned l host) (gather host l) (gather-IsOwned host l)

own_listed :
    (id : Bytes) (route : ProxyRoute) (rs : List DomainRoute)
    → Some (λ r. route ≡ proxy_route id r) rs
    → Some (λ x. x ≡ route) (map (proxy_route id) rs)
own_listed id route [] h = h
own_listed id route (r ∷ rs) (inl e) = inl (sym e)
own_listed id route (r ∷ rs) (inr h) = inr (own_listed id route rs h)

gather-listed :
    (host : Bytes) (route : ProxyRoute) (l : List (Bytes × DomainSnapshot))
    → IsOwned l host route
    → Some (λ x. x ≡ route) (gather host l)
unfolding gather
gather-listed host route [] h = h
gather-listed host route ((id, d) ∷ l) (inl (same, h)) = rw ((text_eq_iff d.hostname host).1 same) (
    Some-append_left (λ x. x ≡ route) (map (proxy_route id) d.routes) (gather host l)
      (own_listed id route d.routes h))
gather-listed host route ((id, d) ∷ l) (inr h) =
    let later = gather-listed host route l h in
    elim (Bool-cases (text_eq d.hostname host)) [
      | inr other ↦ rw other later
      | inl same ↦
          rw same (
            Some-append_right (λ x. x ≡ route) (map (proxy_route id) d.routes) (gather host l)
              later)
    ]

-- Every route of a domain with the hostname is in its table.
pub rebuild-listed :
    (l : List (Bytes × DomainSnapshot)) (host : Bytes) (route : ProxyRoute)
    → IsOwned l host route
    → Some (λ x. x ≡ route) (rebuild l host)
unfolding rebuild
rebuild-listed l host route h =
    Some-sort proxy_before (λ x. x ≡ route) (gather host l) (gather-listed host route l h)
