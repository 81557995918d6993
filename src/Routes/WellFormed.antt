-- ===== src/Routes/WellFormed.antt =====
-- The routes that the normalisation of `normalizeRoutesWithLegacyPaths` accepts.
use tunnel_manager.Prelude.{
  suc, ◌≤◌, ◌≡◌, refl, sym, ap, ◌≢◌, ◌⊎◌, inl, inr, Bool, false, ◌||◌, List, [], ◌∷◌, ok, >>=-eq-ok,
  ok-injective, refuse-eq-ok, length, All, Some, arith, refuse, ◌==◌, ltb,
}
use mathlib.Core.Path.{subst}
use mathlib.Core.List.{Perm}
use tunnel_manager.Prelude.Text.{Bytes}
use tunnel_manager.Prelude.Text.Order.{
  path_before_trans, path_before_asym, path_before_total, sort, All-sort, Some-sort, length-sort,
  sort-perm, sort-Ordered,
}
use tunnel_manager.Prelude.Strict.{Strict, Strict-of, Distinct-sort}
use tunnel_manager.Model.{DomainRoute, RouteInput, UrlLibrary}
use tunnel_manager.Routes.{
  is_empty, Stamp, collect, route_before, normalize_routes_with_legacy_paths, max_domain_routes,
}
use tunnel_manager.Routes.Path.{IsAcceptedPath, normalize_route_path-IsAcceptedPath}
use tunnel_manager.Routes.Collect.{Routed, Apart, IsRoot, collect-IsCollected}

-- `routes` are the routes of the inputs, each in normal form, sorted with the longest path first,
-- and `d`, which is not empty, is the origin of the root route among them.
pub record IsNormal (urls : UrlLibrary) (stamp : Stamp) (allow_direct : Bool)
    (inputs : List RouteInput) (routes : List DomainRoute) (d : Bytes) : Type 0 where
  pub some_route : 1 ≤ length routes
  pub few : length routes ≤ max_domain_routes
  pub routed : (rs : List DomainRoute) × Routed urls stamp allow_direct inputs rs × Perm routes rs
  pub paths : All (λ r. IsAcceptedPath r.path) routes
  pub strict : Strict route_before routes
  pub rooted : Some (IsRoot d) routes
  pub default : d ≢ []

paths_of :
    (urls : UrlLibrary) (stamp : Stamp) (allow_direct : Bool) (inputs : List RouteInput)
    (rs : List DomainRoute)
    → Routed urls stamp allow_direct inputs rs
    → All (λ r. IsAcceptedPath r.path) rs × (length rs ≡ length inputs)
paths_of urls stamp allow_direct [] [] h = (tt, refl)
paths_of urls stamp allow_direct [] (r ∷ rs) h = absurd h
paths_of urls stamp allow_direct (i ∷ is) [] h = absurd h
paths_of urls stamp allow_direct (i ∷ is) (r ∷ rs) (h, hs) =
    let (a, b) = paths_of urls stamp allow_direct is rs hs in
    (((normalize_route_path-IsAcceptedPath i.path r.path h.path).0, a), ap suc b)

Some-rooted :
    (d : Bytes) (rs : List DomainRoute)
    → is_empty d ≡ false
    → (d ≡ []) ⊎ Some (IsRoot d) rs
    → Some (IsRoot d) rs
unfolding is_empty
Some-rooted d rs h (inl e) = cc (subst (λ x. is_empty x ≡ false) e h)
Some-rooted d rs h (inr s) = s

route_before_trans :
    (a b c : DomainRoute)
    → route_before b a ≡ false
    → route_before c b ≡ false
    → route_before c a ≡ false
route_before_trans a b c h k = path_before_trans a.path b.path c.path h k

route_before_total :
    (a b : DomainRoute) → route_before a b ≡ false → route_before b a ≡ false → ¬ (Apart b a)
route_before_total a b h k p = p (path_before_total a.path b.path h k)

-- Accepted inputs number between 1 and 50 and give one route each, with paths that are empty or
-- absolute, without query, fragment or control character, UTF-8 of at most 256 bytes, and strictly
-- ordered, the longest first, so that they are distinct, and with a root route, whose origin is the
-- default origin.
pub normalize_routes-IsNormal :
    (urls : UrlLibrary) (stamp : Stamp) (inputs : List RouteInput) (allow_direct : Bool)
    (o : List DomainRoute × Bytes)
    → normalize_routes_with_legacy_paths urls stamp inputs allow_direct ≡ ok o
    → IsNormal urls stamp allow_direct inputs o.0 o.1
unfolding normalize_routes_with_legacy_paths is_empty
normalize_routes-IsNormal urls stamp inputs allow_direct o h =
    let (_, size, h') =
      >>=-eq-ok (refuse (length inputs == 0 || ltb max_domain_routes (length inputs)) _) _ h in
    let (found, e, h'') = >>=-eq-ok (collect urls stamp allow_direct [] 0 [] inputs) _ h' in
    let (_, nonempty, h''') = >>=-eq-ok (refuse (is_empty found.1) _) _ h'' in
    let c = collect-IsCollected urls stamp allow_direct [] 0 [] inputs found e in
    let size_ok =
      refuse-eq-ok (length inputs == 0 || ltb max_domain_routes (length inputs)) _ size in
    let default = refuse-eq-ok (is_empty found.1) _ nonempty in
    let (paths, same_length) = paths_of urls stamp allow_direct inputs found.0 c.routed in
    let sorted_length = length-sort route_before found.0 in
    subst (λ (x : List DomainRoute × Bytes). IsNormal urls stamp allow_direct inputs x.0 x.1)
      (ok-injective h''')
      (record {
        some_route = ground (arith, sorted_length, same_length, size_ok);
        few = ground (arith, sorted_length, same_length, size_ok);
        routed = (found.0, c.routed, sort-perm route_before found.0);
        paths = All-sort route_before (λ r. IsAcceptedPath r.path) found.0 paths;
        strict =
            Strict-of route_before Apart route_before_total (sort route_before found.0)
              (sort-Ordered route_before route_before_trans (λ a b. path_before_asym a.path b.path)
                found.0)
              (Distinct-sort route_before Apart (λ a b p q. p (sym q)) found.0 c.distinct);
        rooted =
            Some-sort route_before (IsRoot found.1) found.0
              (Some-rooted found.1 found.0 default c.rooted);
        default = λ p. cc (subst (λ x. is_empty x ≡ false) p default);
      })
