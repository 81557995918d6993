-- ===== src/Routes/Samples.antt =====
-- Inputs on which the theorems about routes are run. The URL library here takes every text for the
-- host of an HTTP URL.
use tunnel_manager.Prelude.{ℕ, ◌≡◌, refl, Bool, true, false, List, [], ◌∷◌, ok}
use tunnel_manager.Prelude.Text.{Bytes, codes, text_eq, has_prefix, contains_byte, trim_right_slash}
use tunnel_manager.Prelude.Text.Space.{trim_space}
use tunnel_manager.Prelude.Text.Utf8.{valid_utf8, has_control}
use tunnel_manager.Prelude.Text.Order.{path_before, sort}
use tunnel_manager.Model.{DomainRoute, RouteInput, UrlLibrary}
use tunnel_manager.Routes.{
  root, Stamp, normalize_route_path, normalize_routes_with_legacy_paths, normalize_origin_url,
  collect, seen_path, normalize_input,
}

abbrev pub hosts : UrlLibrary
hosts = record {
  parse = λ s. ok (record {
    scheme = codes "http";
    host = s;
    has_user = false;
    path = [];
    raw_path = [];
    raw_query = [];
    fragment = [];
    rest = [];
  });
  string = λ u. u.host;
}

abbrev pub stamp : Stamp
stamp = record { domain_id = codes "d"; now = 7; new_id = λ i. i ∷ [] }

abbrev pub input : Bytes → Bool → RouteInput
input p s = record { path = p; origin_url = codes "o"; strip_prefix = s }

abbrev pub three : List RouteInput
three = input root false ∷ (input (codes "/a") false ∷ (input (codes " /api/ ") true ∷ []))

abbrev pub route : ℕ → Bytes → Bool → DomainRoute
route i p s = record {
  id = i ∷ [];
  domain_id = codes "d";
  path = p;
  origin_url = codes "o";
  strip_prefix = s;
  created_at = 7;
  updated_at = 7;
}

abbrev pub three_routes : List DomainRoute
three_routes =
    route 2 (codes "/api") true ∷ (route 1 (codes "/a") false ∷ (route 0 root false ∷ []))

pub three_accepted :
    normalize_routes_with_legacy_paths hosts stamp three false ≡ ok (three_routes, codes "o")
unfolding normalize_routes_with_legacy_paths normalize_route_path normalize_origin_url seen_path
    text_eq has_prefix contains_byte trim_right_slash trim_space valid_utf8 has_control path_before
    sort collect normalize_input
three_accepted = refl
