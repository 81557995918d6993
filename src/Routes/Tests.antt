-- ===== src/Routes/Tests.antt =====
-- Runs of the route normalisation, and its theorems at concrete inputs.
use tunnel_manager.Prelude.{◌≡◌, ◌≢◌, ◌↔◌, refl, false, [], ok, err, arith, All, inl, inr}
use tunnel_manager.Prelude.Text.{Bytes, codes, text_eq, has_prefix, contains_byte, trim_right_slash}
use tunnel_manager.Prelude.Text.Space.{trim_space}
use tunnel_manager.Prelude.Text.Utf8.{valid_utf8, has_control}
use tunnel_manager.Routes.Samples.{hosts, stamp, three, three_routes, three_accepted}
use tunnel_manager.Routes.{
  invalid, is_empty, route_before, normalize_route_path, normalize_origin_url,
  normalize_routes_with_legacy_paths, normalize_persisted_routes,
}
use tunnel_manager.Prelude.Text.Order.{sort}
use tunnel_manager.Routes.Persisted.{IsStable, normalize_persisted_routes_self}
use tunnel_manager.Routes.Path.{
  slashes, normalize_route_path-again_iff, normalize_route_path-slashes,
}
use tunnel_manager.Routes.WellFormed.{IsNormal, normalize_routes-IsNormal}

normalize_routes-IsNormal_example : IsNormal hosts stamp false three three_routes (codes "o")
normalize_routes-IsNormal_example =
    normalize_routes-IsNormal hosts stamp three false (three_routes, codes "o") three_accepted

-- A space before the last slash survives the first validation and not the second.
space_accepted : normalize_route_path (codes "/a /") ≡ ok (codes "/a ")
unfolding normalize_route_path text_eq has_prefix contains_byte trim_right_slash trim_space
    valid_utf8 has_control
space_accepted = refl

normalize_route_path-again_iff_example :
    (normalize_route_path (codes "/a ") ≡ ok (codes "/a "))
    ↔ ((codes "/a " ≢ []) × (trim_space (codes "/a ") ≡ codes "/a "))
normalize_route_path-again_iff_example =
    normalize_route_path-again_iff (codes "/a /") (codes "/a ") space_accepted

normalize_route_path-slashes_example :
    (normalize_route_path (slashes 2) ≡ ok []) × ((q : Bytes) → normalize_route_path [] ≢ ok q)
normalize_route_path-slashes_example = normalize_route_path-slashes 0 (omega arith)

no_routes_refused :
    normalize_routes_with_legacy_paths hosts stamp [] false
    ≡ err (invalid (codes "routes must contain between 1 and 50 items"))
unfolding normalize_routes_with_legacy_paths
no_routes_refused = refl

three-IsStable : All (IsStable hosts stamp) three_routes
unfolding normalize_route_path normalize_origin_url text_eq has_prefix contains_byte
    trim_right_slash trim_space valid_utf8 has_control is_empty
three-IsStable = (
  record { path = refl; origin = refl; some_origin = refl; root_kept = refl; owned = refl },
  (
    record { path = refl; origin = refl; some_origin = refl; root_kept = refl; owned = refl },
    (record { path = refl; origin = refl; some_origin = refl; root_kept = refl; owned = refl }, tt),
  ),
)

normalize_persisted_routes_self_example :
    normalize_persisted_routes hosts stamp three_routes ≡ ok (sort route_before three_routes)
normalize_persisted_routes_self_example =
    normalize_persisted_routes_self hosts stamp three_routes (codes "o") (omega arith)
      three-IsStable ((λ e. cc, (λ e. cc, tt)), ((λ e. cc, tt), (tt, tt)))
      (inr (inr (inl (refl, refl, refl))))
