-- ===== src/Proxy/Serving.antt =====
-- Which route serves a request, and what is forwarded.
use tunnel_manager.Prelude.{
  ◌≤◌, ◌≡◌, refl, ap, sym, ◌∙◌, ◌⊎◌, inl, inr, ◌↔◌, true, false, List, [], ◌∷◌, ◌++◌, some, All,
  All-map_all, Some, arith, Bool-cases, length, ◌==◌, ==_iff,
}
use mathlib.Core.Path.{subst, ap₂}
use tunnel_manager.Prelude.Text.{
  Bytes, slash, text_eq, text_eq_iff, has_prefix, cut_prefix, trim_prefix,
}
use tunnel_manager.Prelude.Text.Order.{
  path_before_trans, path_before_asym, length_of_path_before, sort-Ordered, Ordered,
}
use tunnel_manager.Proxy.{
  NetLibrary, ProxyRoute, DomainSnapshot, ProxyServer, gather, rebuild, proxy_before,
  normalize_hostname, matches_prefix, Request, proxied, not_found, forward, first_match, serve_http,
}
use tunnel_manager.Proxy.Table.{IsBuilt}
use tunnel_manager.Proxy.Owned.{IsOwned, rebuild-IsOwned, rebuild-listed}

abbrev pub Matches : Request → ProxyRoute → Type 0
Matches r route = matches_prefix r.path route.path ≡ true

-- The route that serves the request `r`: it matches, and no other route that matches is longer.
pub record Serves (routes : List ProxyRoute) (r : Request) (route : ProxyRoute) (r' : Request)
    : Type 0 where
  pub listed : Some (λ x. x ≡ route) routes
  pub matches : Matches r route
  pub longest : All (λ x. Matches r x → length x.path ≤ length route.path) routes
  pub request : r' ≡ forward route r

shorter :
    (r : Request) (route : ProxyRoute) (rs : List ProxyRoute)
    → All (λ y. proxy_before y route ≡ false) rs
    → All (λ x. Matches r x → length x.path ≤ length route.path) rs
shorter r route [] h = tt
shorter r route (x ∷ rs) (h, hs) =
    (λ _. length_of_path_before route.path x.path h, shorter r route rs hs)

served_by :
    {route' route : ProxyRoute} {r r' : Request}
    → proxied route' r ≡ proxied route r'
    → (route' ≡ route) × (r ≡ r')
served_by e = (cc, cc)

pub first_match-Serves :
    (routes : List ProxyRoute) (r : Request) (route : ProxyRoute) (r' : Request)
    → Ordered proxy_before routes
    → first_match routes r ≡ proxied route r'
    → Serves routes r route r'
unfolding first_match
first_match-Serves [] r route r' o e = cc
first_match-Serves (x ∷ routes) r route r' (first, o) e =
    elim (Bool-cases (matches_prefix r.path x.path)) [
      | inr missed ↦
          let ih = first_match-Serves routes r route r' o (simp missed at e) in
          record {
            listed = inr ih.listed;
            matches = ih.matches;
            longest = (λ hit. cc (hit, missed), ih.longest);
            request = ih.request;
          }
      | inl hit ↦
          let (same, request) = served_by (simp hit at e) in
          record {
            listed = inl same;
            matches = subst (Matches r) same hit;
            longest =
                subst (λ y. All (λ z. Matches r z → length z.path ≤ length y.path) (x ∷ routes))
                  same (λ _. omega arith, shorter r x routes first);
            request = sym request ∙ ap (λ y. forward y r) same;
          }
    ]

first_match-not_found :
    (routes : List ProxyRoute) (r : Request)
    → (first_match routes r ≡ not_found) ↔ All (λ x. matches_prefix r.path x.path ≡ false) routes
unfolding first_match
first_match-not_found [] r = (λ _. tt, λ _. refl)
first_match-not_found (x ∷ routes) r =
    let (to, from) = first_match-not_found routes r in
    elim (Bool-cases (matches_prefix r.path x.path)) [
      | inl hit ↦ (λ e. absurd (clash (simp hit at e)), λ (miss, _). cc (hit, miss))
      | inr missed ↦ (λ e. (missed, to (simp missed at e)), λ (_, rest). simp missed (from rest))
    ]
  where
    clash : {y : ProxyRoute} {q : Request} → proxied y q ≡ not_found → ⊥
    clash e = cc

proxy_before_trans :
    (a b c : ProxyRoute)
    → proxy_before b a ≡ false
    → proxy_before c b ≡ false
    → proxy_before c a ≡ false
proxy_before_trans a b c h k = path_before_trans a.path b.path c.path h k

rebuild-Ordered :
    (l : List (Bytes × DomainSnapshot)) (host : Bytes) → Ordered proxy_before (rebuild l host)
unfolding rebuild
rebuild-Ordered l host =
    sort-Ordered proxy_before proxy_before_trans (λ a b. path_before_asym a.path b.path)
      (gather host l)

-- Which route serves a request for the hostname: a domain of the table with that hostname has it, it
-- matches, and no route of such a domain that matches is longer.
pub record IsServedBy (by_domain : List (Bytes × DomainSnapshot)) (host : Bytes) (r : Request)
    (route : ProxyRoute) (r' : Request) : Type 0 where
  pub owned : IsOwned by_domain host route
  pub matches : Matches r route
  pub longest :
      (x : ProxyRoute) → IsOwned by_domain host x → Matches r x → length x.path ≤ length route.path
  pub request : r' ≡ forward route r

-- What holds of a list of routes holds of each that is listed.
pub All-listed :
    (P : ProxyRoute → Type 0) (x : ProxyRoute) (rs : List ProxyRoute)
    → All P rs
    → Some (λ y. y ≡ x) rs
    → P x
All-listed P x [] h i = absurd i
All-listed P x (r ∷ rs) (h, hs) (inl e) = subst P e h
All-listed P x (r ∷ rs) (h, hs) (inr i) = All-listed P x rs hs i

module _ (l : List (Bytes × DomainSnapshot)) (host : Bytes) where
  Serves-IsServedBy :
      (r : Request) (route : ProxyRoute) (r' : Request)
      → Serves (rebuild l host) r route r'
      → IsServedBy l host r route r'
  Serves-IsServedBy r route r' s = record {
    owned = All-listed (IsOwned l host) route (rebuild l host) (rebuild-IsOwned l host) s.listed;
    matches = s.matches;
    longest = λ x owned.
        All-listed (λ y. Matches r y → length y.path ≤ length route.path) x (rebuild l host)
          s.longest (rebuild-listed l host x owned);
    request = s.request;
  }

  none_matches :
      (r : Request)
      → All (λ x. matches_prefix r.path x.path ≡ false) (rebuild l host)
        ↔ ((x : ProxyRoute) → IsOwned l host x → matches_prefix r.path x.path ≡ false)
  none_matches r = (
    λ h x owned.
        All-listed (λ y. matches_prefix r.path y.path ≡ false) x (rebuild l host) h
          (rebuild-listed l host x owned),
    λ h. All-map_all (IsOwned l host) _ h (rebuild l host) (rebuild-IsOwned l host),
  )

-- If the map that requests read is the one built from the domains: the route that serves a request
-- is one of a domain with the request's hostname, it matches, no route of such a domain that matches
-- is longer, and the request that goes on is the route's; and a request finds nothing exactly when no
-- route of a domain with its hostname matches.
pub serve_http-Serves :
    (net : NetLibrary) (p : ProxyServer) (r : Request)
    → IsBuilt p
    → let host = normalize_hostname net r.host in
      ((route : ProxyRoute) (r' : Request)
        → serve_http net p r ≡ proxied route r'
        → IsServedBy p.by_domain host r route r')
      × ((serve_http net p r ≡ not_found)
          ↔ ((x : ProxyRoute) → IsOwned p.by_domain host x → matches_prefix r.path x.path ≡ false))
unfolding serve_http
serve_http-Serves net p r built =
    let host = normalize_hostname net r.host in
    let (to, from) = first_match-not_found (rebuild p.by_domain host) r in
    let (to', from') = none_matches p.by_domain host r in
    rw (built host) (
      λ route r' e. Serves-IsServedBy p.by_domain host r route r' (
          first_match-Serves (rebuild p.by_domain host) r route r'
            (rebuild-Ordered p.by_domain host) e),
      (λ e. to' (to e), λ h. from (from' h)),
    )

cut_slash :
    (s p : Bytes)
    → has_prefix s (p ++ slash ∷ []) ≡ true
    → (t : Bytes) × (cut_prefix s p ≡ some (slash ∷ t)) × (s ≡ p ++ slash ∷ t)
unfolding has_prefix cut_prefix
cut_slash [] [] h = cc
cut_slash (c ∷ s) [] h =
    let same : c ≡ slash = ground (arith, ==_iff c slash) in (s, rw same, rw same)
cut_slash [] (d ∷ p) h = cc
cut_slash (c ∷ s) (d ∷ p) h = elim (Bool-cases (c == d)) [
  | inr other ↦ cc (other, h)
  | inl same ↦
      let (t, a, b) = cut_slash s p (rw same at h) in
      (t, rw same a, ap₂ ◌∷◌ ((==_iff c d).0 same) b)
]

cut_all : (s : Bytes) → cut_prefix s s ≡ some []
unfolding cut_prefix
cut_all [] = refl
cut_all (c ∷ s) = rw ((==_iff c c).1 refl) (cut_all s)

-- What is forwarded of a request that a route matches: the path begins with a slash, it is the old
-- path with the prefix taken off, or the root if nothing is left, and the prefix is handed on.
pub forward_path :
    (route : ProxyRoute) (r : Request)
    → Matches r route
    → (((r.path ≡ route.path) × ((forward route r).path ≡ slash ∷ []))
        ⊎ ((t : Bytes) × (r.path ≡ route.path ++ slash ∷ t) × ((forward route r).path ≡ slash ∷ t)))
      × ((forward route r).forwarded_prefix ≡ route.path)
      × ((forward route r).forwarded_host ≡ r.host)
unfolding forward matches_prefix trim_prefix text_eq
forward_path route r h = (
  elim (Bool-cases (text_eq r.path route.path)) [
    | inl same ↦
        let e = (text_eq_iff r.path route.path).0 same in
        let cut : cut_prefix r.path route.path ≡ some [] = rw e (cut_all route.path) in
        inl (e, rw (cut, trim_prefix))
    | inr other ↦
        let (t, cut, e) = cut_slash r.path route.path (rw other at h) in
        inr (t, e, rw (cut, trim_prefix))
  ],
  refl,
  refl,
)
