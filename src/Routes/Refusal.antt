-- ===== src/Routes/Refusal.antt =====
-- The errors of the normalisation of routes.
use tunnel_manager.Prelude.{
  ℕ, ◌+◌, ◌≡◌, refl, ap, inl, inr, Result-cases, err-injective, Bool, true, false, List, [], ◌∷◌,
  Result, ok, err, Error, ◌>>=◌, refuse, errors_is, invalid_routes, if◌then◌else◌,
}
use mathlib.Core.Path.{subst}
use tunnel_manager.Prelude.Text.{Bytes, text_eq}
use tunnel_manager.Prelude.Text.Space.{trim_space}
use tunnel_manager.Model.{RouteInput, Url, UrlLibrary}
use tunnel_manager.Routes.{
  root, invalid, Stamp, normalize_route_path, normalize_origin_url, check_origin, normalize_input,
  collect, normalize_routes_with_legacy_paths,
}

-- If the result is an error, it is `ErrInvalidRoutes`.
pub record Refuses {ℓ} {A : Type ℓ} (r : Result A) : Type ℓ where
  pub only : (e : Error) → r ≡ err e → errors_is e invalid_routes ≡ true

Refuses-ok {ℓ} : {A : Type ℓ} (a : A) → Refuses (ok a)
Refuses-ok a = record { only = λ e h. cc }

Refuses-bind {ℓ} :
    {A B : Type ℓ} (m : Result A) (f : A → Result B)
    → Refuses m
    → ((a : A) → Refuses (f a))
    → Refuses (m >>= f)
Refuses-bind (ok a) f h k = k a
Refuses-bind (err e) f h k = record { only = λ e' p. h.only e' (ap err (err-injective p)) }

Refuses-invalid {ℓ} : {A : Type ℓ} (m : Bytes) → Refuses {A = A} (err (invalid m))
Refuses-invalid {A} m = record {
  only = λ e h. subst (λ x. errors_is x invalid_routes ≡ true) (err-injective {A = A} h) refl;
}

Refuses-refuse : (b : Bool) (m : Bytes) → Refuses (refuse b (invalid m))
Refuses-refuse true m = Refuses-invalid m
Refuses-refuse false m = Refuses-ok tt

ruleset refuses = (Refuses-ok, Refuses-bind, Refuses-invalid, Refuses-refuse)

Refuses-path : (raw : Bytes) → Refuses (normalize_route_path raw)
unfolding normalize_route_path
Refuses-path raw = search refuses

Refuses-check :
    (urls : UrlLibrary) (strip direct : Bool) (u : Url) → Refuses (check_origin urls strip direct u)
unfolding check_origin
Refuses-check urls strip direct u = search refuses

Refuses-origin :
    (urls : UrlLibrary) (raw : Bytes) (strip direct : Bool)
    → Refuses (normalize_origin_url urls raw strip direct)
unfolding normalize_origin_url
Refuses-origin urls raw strip direct = elim (Result-cases (urls.parse (trim_space raw))) [
  | inl (u, e) ↦ rw (e, normalize_origin_url) (Refuses-check urls strip direct u)
  | inr (x, e) ↦ rw (e, normalize_origin_url) (Refuses-invalid _)
]

module _ (urls : UrlLibrary) (stamp : Stamp) (direct : Bool) where
  Refuses-input :
      (seen : List Bytes) (i : ℕ) (input : RouteInput)
      → Refuses (normalize_input urls stamp direct seen i input)
  unfolding normalize_input
  Refuses-input seen i input = search (refuses, Refuses-path, Refuses-origin)

  Refuses-collect :
      (seen : List Bytes) (i : ℕ) (origin : Bytes) (inputs : List RouteInput)
      → Refuses (collect urls stamp direct seen i origin inputs)
  unfolding collect
  Refuses-collect seen i origin [] = search refuses
  Refuses-collect seen i origin (input ∷ inputs) =
      Refuses-bind (normalize_input urls stamp direct seen i input) _ (Refuses-input seen i input)
        λ route.
          Refuses-bind
            (collect urls stamp direct (route.path ∷ seen) (i + 1)
              (if text_eq route.path root then route.origin_url else origin) inputs)
            _
            (Refuses-collect (route.path ∷ seen) (i + 1)
              (if text_eq route.path root then route.origin_url else origin) inputs)
            λ rest. Refuses-ok (route ∷ rest.0, rest.1)

  Refuses-normalize :
      (inputs : List RouteInput)
      → Refuses (normalize_routes_with_legacy_paths urls stamp inputs direct)
  unfolding normalize_routes_with_legacy_paths
  Refuses-normalize inputs = search (refuses, Refuses-collect)

  -- Whatever the inputs, an error of the normalisation is `ErrInvalidRoutes`.
  pub normalize_routes-invalid_routes :
      (inputs : List RouteInput) (e : Error)
      → normalize_routes_with_legacy_paths urls stamp inputs direct ≡ err e
      → errors_is e invalid_routes ≡ true
  normalize_routes-invalid_routes inputs = (Refuses-normalize inputs).only
