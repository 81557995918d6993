-- ===== src/Routes.antt =====
-- internal/services/domain/routes.go: the validation and normal form of a domain's routes.
pub mod Path
pub mod Collect
pub mod WellFormed
pub mod Refusal
pub mod Persisted
pub mod Samples
mod Tests
use tunnel_manager.Prelude.{
  ℕ, zero, suc, ◌+◌, Bool, true, false, not, ◌&&◌, ◌||◌, List, [], ◌∷◌, ◌++◌, map, Result, ok, err,
  Error, sentinel, detail, invalid_routes, refuse, ◌>>=◌, ◌>>◌, ◌==◌, ltb, if◌then◌else◌, length,
  Option, none, some,
}
use tunnel_manager.Prelude.Text.{
  Bytes, codes, slash, text_eq, has_prefix, contains_byte, trim_right_slash,
}
use tunnel_manager.Prelude.Text.Space.{trim_space}
use tunnel_manager.Prelude.Text.Utf8.{valid_utf8, has_control}
use tunnel_manager.Prelude.Text.Order.{path_before, sort}
use tunnel_manager.Model.{DomainRoute, RouteInput, IngressRule, Url, UrlLibrary}

abbrev pub max_domain_routes : ℕ
max_domain_routes = 50

abbrev pub max_route_path_len : ℕ
max_route_path_len = 256

abbrev pub root : Bytes
root = slash ∷ []

-- The messages leave out the arguments of `fmt.Errorf`.
abbrev pub invalid : Bytes → Error
invalid m = detail (sentinel invalid_routes) m

unfoldable pub normalize_route_path : Bytes → Result Bytes
normalize_route_path raw = do
  let path = trim_space raw
  refuse
      (text_eq path []
        || not (has_prefix path root)
        || (contains_byte b'?' path || contains_byte b'#' path))
      (invalid (codes "path must be an absolute path without query or fragment"))
  refuse (has_control path) (invalid (codes "path contains control characters"))
  refuse (not (valid_utf8 path) || ltb max_route_path_len (length path))
      (invalid (codes "path must be valid UTF-8 and at most 256 bytes"))
  ok (if text_eq path root then path else trim_right_slash path)

pub is_empty : Bytes → Bool
is_empty [] = true
is_empty (c ∷ s) = false

abbrev is_http : Url → Bool
is_http u = text_eq u.scheme (codes "http") || text_eq u.scheme (codes "https")

-- The checks and the rebuilt URL, after `url.Parse`.
check_origin : UrlLibrary → Bool → Bool → Url → Result Bytes
unfolding is_empty
check_origin urls strip_prefix allow_direct u = do
  refuse (is_empty u.host || not (is_http u))
      (invalid (codes "origin URL must be absolute HTTP or HTTPS"))
  refuse (u.has_user || not (is_empty u.raw_query) || not (is_empty u.fragment))
      (invalid (codes "origin URL cannot contain credentials, query, or fragment"))
  refuse (not (is_empty u.path) && not (text_eq u.path root) && (strip_prefix || not allow_direct))
      (invalid (codes "origin URL cannot contain a non-root path"))
  ok (urls.string (if text_eq u.path root then record u { path = []; raw_path = [] } else u))

unfoldable pub normalize_origin_url : UrlLibrary → Bytes → Bool → Bool → Result Bytes
unfolding check_origin
normalize_origin_url urls raw strip_prefix allow_direct = elim (urls.parse (trim_space raw)) [
  | err e ↦ err (invalid (codes "origin URL must be absolute HTTP or HTTPS"))
  | ok u ↦ check_origin urls strip_prefix allow_direct u
]

-- Whether a path is a key of the map `seen`.
pub seen_path : Bytes → List Bytes → Bool
seen_path p [] = false
seen_path p (q ∷ qs) = text_eq q p || seen_path p qs

-- What the calls of one normalisation share: the domain, the time, and the identifiers that
-- `uuid.NewString` will return.
pub record Stamp : Type 0 where
  pub domain_id : Bytes
  pub now : ℕ
  pub new_id : ℕ → Bytes

-- One round of the loop, without its writes to `seen` and `defaultOrigin`: the new route.
pub normalize_input : UrlLibrary → Stamp → Bool → List Bytes → ℕ → RouteInput → Result DomainRoute
normalize_input urls stamp allow_direct seen i input = do
  path ← normalize_route_path input.path
  refuse (seen_path path seen) (invalid (codes "duplicate path"))
  refuse (text_eq path root && input.strip_prefix)
      (invalid (codes "root route cannot strip its prefix"))
  origin_url ← normalize_origin_url urls input.origin_url input.strip_prefix allow_direct
  ok (record {
    id = stamp.new_id i;
    domain_id = stamp.domain_id;
    path = path;
    origin_url = origin_url;
    strip_prefix = input.strip_prefix;
    created_at = stamp.now;
    updated_at = stamp.now;
  })

-- The loop: the routes in the order of the inputs, and the last root origin.
pub collect :
    UrlLibrary
    → Stamp
    → Bool
    → List Bytes
    → ℕ
    → Bytes
    → List RouteInput
    → Result (List DomainRoute × Bytes)
collect urls stamp allow_direct seen i origin [] = ok ([], origin)
collect urls stamp allow_direct seen i origin (input ∷ inputs) = do
  route ← normalize_input urls stamp allow_direct seen i input
  rest ←
      collect urls stamp allow_direct (route.path ∷ seen) (i + 1)
        (if text_eq route.path root then route.origin_url else origin) inputs
  ok (route ∷ rest.0, rest.1)

abbrev pub route_before : DomainRoute → DomainRoute → Bool
route_before a b = path_before a.path b.path

unfoldable pub normalize_routes_with_legacy_paths :
    UrlLibrary → Stamp → List RouteInput → Bool → Result (List DomainRoute × Bytes)
unfolding is_empty
normalize_routes_with_legacy_paths urls stamp inputs allow_direct = do
  refuse (length inputs == 0 || ltb max_domain_routes (length inputs))
      (invalid (codes "routes must contain between 1 and 50 items"))
  found ← collect urls stamp allow_direct [] 0 [] inputs
  refuse (is_empty found.1) (invalid (codes "exactly one root route is required"))
  ok (sort route_before found.0, found.1)

unfoldable pub normalize_routes :
    UrlLibrary → Stamp → List RouteInput → Result (List DomainRoute × Bytes)
unfolding normalize_routes_with_legacy_paths
normalize_routes urls stamp inputs = normalize_routes_with_legacy_paths urls stamp inputs false

unfoldable pub route_inputs : List DomainRoute → List RouteInput
route_inputs =
    map (λ r. record { path = r.path; origin_url = r.origin_url; strip_prefix = r.strip_prefix })

-- The map `metadata` by its lookup: the last persisted route of the path.
find_route : Bytes → List DomainRoute → Option DomainRoute
find_route p [] = none
find_route p (r ∷ rs) = elim (find_route p rs) [
  | some q ↦ some q
  | none ↦ if text_eq r.path p then some r else none
]

abbrev restored : Option DomainRoute → DomainRoute → DomainRoute
restored none r = r
restored (some original) r = record r {
  id = original.id;
  created_at = original.created_at;
  updated_at = original.updated_at;
}

restore : List DomainRoute → DomainRoute → DomainRoute
unfolding find_route
restore persisted r = restored (find_route r.path persisted) r

unfoldable pub normalize_persisted_routes :
    UrlLibrary → Stamp → List DomainRoute → Result (List DomainRoute)
unfolding normalize_routes_with_legacy_paths route_inputs restore
normalize_persisted_routes urls stamp persisted = do
  normalized ← normalize_routes_with_legacy_paths urls stamp (route_inputs persisted) true
  ok (map (restore persisted) normalized.0)

-- `regexp.QuoteMeta`: a backslash before each of \.+*?()|[]{}^$.
is_special : ℕ → Bool
is_special c = contains_byte c (92 ∷ codes ".+*?()|[]{}^$")

unfoldable pub quote_meta : Bytes → Bytes
unfolding is_special
quote_meta [] = []
quote_meta (c ∷ s) = if is_special c then 92 ∷ (c ∷ quote_meta s) else c ∷ quote_meta s

-- The rule of one route; the first argument is the URL of the ingress proxy.
unfoldable pub cloudflare_rule : Bytes → DomainRoute → IngressRule
unfolding quote_meta
cloudflare_rule proxy_url r = record {
  path = if text_eq r.path root then [] else codes "^" ++ (quote_meta r.path ++ codes "(/.*)?$");
  service = if r.strip_prefix then proxy_url else r.origin_url;
}

unfoldable pub cloudflare_rules : Bytes → List DomainRoute → List IngressRule
unfolding cloudflare_rule
cloudflare_rules proxy_url routes = map (cloudflare_rule proxy_url) routes
