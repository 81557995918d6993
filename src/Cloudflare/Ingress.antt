-- ===== src/Cloudflare/Ingress.antt =====
-- What `PutIngressConfig` sends for the routes that `normalizeRoutesWithLegacyPaths` accepts.
use tunnel_manager.Prelude.{
  ◌≤◌, ◌≡◌, refl, ap, ◌∙◌, ◌≢◌, inl, inr, Bool, true, false, List, [], ◌∷◌, ◌++◌, none, some, ok,
  length, All, Some, Bool-cases, if◌then◌else◌, arith, ==_iff, map,
}
use mathlib.Core.Path.{subst, ap₂}
use tunnel_manager.Prelude.Strict.{Strict}
use tunnel_manager.Prelude.Text.{Bytes, codes, text_eq, text_eq_iff, has_prefix, slash}
use tunnel_manager.Prelude.Text.Order.{path_before, text_lt}
use tunnel_manager.Model.{DomainRoute, RouteInput, UrlLibrary}
use tunnel_manager.Routes.{
  root, route_before, Stamp, normalize_routes_with_legacy_paths, cloudflare_rule, cloudflare_rules,
  quote_meta,
}
use tunnel_manager.Routes.Path.{IsAcceptedPath}
use tunnel_manager.Routes.Collect.{IsRoot}
use tunnel_manager.Routes.WellFormed.{normalize_routes-IsNormal}
use tunnel_manager.Cloudflare.{
  IngressItem, put_configuration, Api, ingress_item, ingress_items, not_found_item,
  put_ingress_config,
}

-- The last route is the root route, and no other one has its path.
record EndsInRoot (d : Bytes) (routes : List DomainRoute) : Type 0 where
  front : List DomainRoute
  last : DomainRoute
  whole : routes ≡ front ++ last ∷ []
  others : All (λ r. r.path ≢ root) front
  is_root : IsRoot d last

-- Nothing but the empty path comes after the root.
after_root : (p : Bytes) → IsAcceptedPath p → p ≢ [] → path_before root p ≡ false
unfolding path_before text_lt has_prefix
after_root [] h k = absurd (k refl)
after_root (c ∷ []) h k = elim h.absolute [ inl e ↦ absurd (k e) | inr e ↦ slash_only e ]
  where
    slash_only : has_prefix (c ∷ []) root ≡ true → path_before root (c ∷ []) ≡ false
    slash_only e = ground (arith, ==_iff c slash)
after_root (c ∷ (d ∷ s)) h k = ground arith

nothing_after :
    (r s : DomainRoute)
    → r.path ≡ root
    → route_before r s ≡ true
    → IsAcceptedPath s.path
    → ¬ (s.path ≢ [])
nothing_after r s e b h k = cc (after_root s.path h k, subst (λ p. path_before p s.path ≡ true) e b)

ends_in_root :
    (d : Bytes) (routes : List DomainRoute)
    → Strict route_before routes
    → All (λ r. IsAcceptedPath r.path) routes
    → All (λ r. r.path ≢ []) routes
    → Some (IsRoot d) routes
    → EndsInRoot d routes
ends_in_root d [] s h k i = absurd i
ends_in_root d (r ∷ []) s h k (inl i) = record {
  front = [];
  last = r;
  whole = refl;
  others = tt;
  is_root = i;
}
ends_in_root d (r ∷ (x ∷ rs)) ((b, bs), s) (h, (h', hs)) (k, (k', ks)) (inl i) =
    absurd (nothing_after r x i.0 b h' k')
ends_in_root d (r ∷ []) s h k (inr i) = absurd i
ends_in_root d (r ∷ (x ∷ rs)) ((b, bs), s) (h, (h', hs)) (k, (k', ks)) (inr i) =
    let later = ends_in_root d (x ∷ rs) s (h', hs) (k', ks) i in
    record {
      front = r ∷ later.front;
      last = later.last;
      whole = ap (λ l. r ∷ l) later.whole;
      others = (λ e. nothing_after r x e b h' k', later.others);
      is_root = later.is_root;
    }

-- The expression for a path: the path itself, or the path with a slash and more behind it.
pub pattern : Bytes → Bytes
pattern p = codes "^" ++ (quote_meta p ++ codes "(/.*)?$")

-- The item of a route other than the root: for the hostname and the pattern of its path, to the
-- ingress proxy if the prefix is to be taken off, and to the route's origin otherwise.
abbrev pub routed : Bytes → Bytes → DomainRoute → IngressItem
routed proxy_url hostname r = record {
  hostname = some hostname;
  path = some (pattern r.path);
  service = if r.strip_prefix then proxy_url else r.origin_url;
}

-- The list has an item for each route, in their order, and a last one for what no route matches.
-- Those of the routes are for the hostname, and only the last of them, the root's, has no pattern.
pub record IsIngress (proxy_url hostname d : Bytes) (routes : List DomainRoute)
    (items : List IngressItem) : Type 0 where
  pub front : List DomainRoute
  pub last : DomainRoute
  pub whole : routes ≡ front ++ last ∷ []
  pub order :
      items
      ≡ map (routed proxy_url hostname) front
        ++ record { hostname = some hostname; path = none; service = d } ∷ (not_found_item ∷ [])

module _ (proxy_url hostname : Bytes) where
  abbrev item : DomainRoute → IngressItem
  item r = ingress_item hostname (cloudflare_rule proxy_url r)

  ingress_items-append :
      (front : List DomainRoute) (r : DomainRoute)
      → ingress_items hostname (cloudflare_rules proxy_url (front ++ r ∷ []))
        ≡ map item front ++ (item r ∷ (not_found_item ∷ []))
  unfolding ingress_items cloudflare_rules
  ingress_items-append [] r = refl
  ingress_items-append (f ∷ front) r = ap (λ l. item f ∷ l) (ingress_items-append front r)

  item-root :
      (d : Bytes) (r : DomainRoute)
      → IsRoot d r
      → item r ≡ record { hostname = some hostname; path = none; service = d }
  unfolding ingress_item cloudflare_rule text_eq
  item-root d r (p, o, s) = rw (p, s, o)

  item-routed : (r : DomainRoute) → r.path ≢ root → item r ≡ routed proxy_url hostname r
  unfolding ingress_item cloudflare_rule pattern text_eq
  item-routed r h = elim (Bool-cases (text_eq r.path root)) [
    | inl e ↦ absurd (h ((text_eq_iff r.path root).0 e))
    | inr e ↦ rw e
  ]

  items-routed :
      (front : List DomainRoute)
      → All (λ r. r.path ≢ root) front
      → map item front ≡ map (routed proxy_url hostname) front
  items-routed [] h = refl
  items-routed (r ∷ front) (h, hs) = ap₂ ◌∷◌ (item-routed r h) (items-routed front hs)

  IsIngress-of :
      (d : Bytes) (routes : List DomainRoute)
      → EndsInRoot d routes
      → IsIngress proxy_url hostname d routes
          (ingress_items hostname (cloudflare_rules proxy_url routes))
  IsIngress-of d routes h = record {
    front = h.front;
    last = h.last;
    whole = h.whole;
    order =
        ap (λ l. ingress_items hostname (cloudflare_rules proxy_url l)) h.whole
        ∙ (ingress_items-append h.front h.last
            ∙ ap (λ i. map item h.front ++ (i ∷ (not_found_item ∷ [])))
                (item-root d h.last h.is_root))
        ∙ ap
            (λ l.
              l
              ++ record { hostname = some hostname; path = none; service = d }
                ∷ (not_found_item ∷ []))
            (items-routed h.front h.others);
  }

put_ingress_config-request :
    (api : Api) (account tunnel hostname proxy_url : Bytes) (routes : List DomainRoute)
    → 1 ≤ length routes
    → (put_ingress_config api account tunnel hostname (cloudflare_rules proxy_url routes)).0
      ≡ put_configuration account tunnel
          (ingress_items hostname (cloudflare_rules proxy_url routes))
        ∷ []
unfolding put_ingress_config cloudflare_rules
put_ingress_config-request api account tunnel hostname proxy_url [] h = absurd (omega arith)
put_ingress_config-request api account tunnel hostname proxy_url (r ∷ routes) h = refl

-- For accepted routes none of which has the empty path, `PutIngressConfig` sends one request: an
-- item for each route, in their order, with the hostname and, but for the last, the pattern of its
-- path and the ingress proxy or the route's origin as its service; the last is the root's, whose
-- service is the default origin, and behind it stands only the item that answers 404.
pub put_ingress_config-IsIngress :
    (urls : UrlLibrary) (stamp : Stamp) (inputs : List RouteInput) (allow_direct : Bool)
    (o : List DomainRoute × Bytes) (api : Api) (account tunnel hostname proxy_url : Bytes)
    → normalize_routes_with_legacy_paths urls stamp inputs allow_direct ≡ ok o
    → All (λ r. r.path ≢ []) o.0
    → (items : List IngressItem) × ((put_ingress_config api account tunnel hostname
          (cloudflare_rules proxy_url o.0)).0
        ≡ put_configuration account tunnel items ∷ [])
      × IsIngress proxy_url hostname o.1 o.0 items
put_ingress_config-IsIngress urls stamp inputs allow_direct o api account tunnel hostname proxy_url
      h k =
    let n = normalize_routes-IsNormal urls stamp inputs allow_direct o h in
    (
      ingress_items hostname (cloudflare_rules proxy_url o.0),
      put_ingress_config-request api account tunnel hostname proxy_url o.0 n.some_route,
      IsIngress-of proxy_url hostname o.1 o.0 (ends_in_root o.1 o.0 n.strict n.paths k n.rooted),
    )
