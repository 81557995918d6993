-- ===== src/Routes/Collect.antt =====
-- The loop over the inputs of `normalizeRoutesWithLegacyPaths`.
use tunnel_manager.Prelude.{
  ℕ, ◌+◌, ◌≡◌, refl, sym, ◌≢◌, ◌⊎◌, inl, inr, Bool, false, ◌&&◌, List, [], ◌∷◌, ok, ◌>>=◌,
  >>=-eq-ok, ok-injective, All, Some, Bool-cases, arith, if◌then◌else◌,
}
use mathlib.Core.Path.{subst}
use tunnel_manager.Prelude.Text.{Bytes, text_eq, text_eq_iff}
use tunnel_manager.Prelude.Strict.{Distinct}
use tunnel_manager.Model.{DomainRoute, RouteInput, UrlLibrary}
use tunnel_manager.Routes.{
  root, seen_path, Stamp, normalize_route_path, normalize_origin_url, normalize_input, collect,
}

-- The route of an input.
pub record IsRouteOf (urls : UrlLibrary) (stamp : Stamp) (allow_direct : Bool) (input : RouteInput)
    (r : DomainRoute) : Type 0 where
  pub path : normalize_route_path input.path ≡ ok r.path
  pub origin :
      normalize_origin_url urls input.origin_url input.strip_prefix allow_direct ≡ ok r.origin_url
  pub strip : r.strip_prefix ≡ input.strip_prefix
  pub root_kept : (text_eq r.path root && r.strip_prefix) ≡ false
  pub domain : r.domain_id ≡ stamp.domain_id
  pub created : r.created_at ≡ stamp.now
  pub updated : r.updated_at ≡ stamp.now

module _ (urls : UrlLibrary) (stamp : Stamp) (allow_direct : Bool) where
  input-IsRouteOf :
      (seen : List Bytes) (i : ℕ) (input : RouteInput) (r : DomainRoute)
      → normalize_input urls stamp allow_direct seen i input ≡ ok r
      → IsRouteOf urls stamp allow_direct input r × (seen_path r.path seen ≡ false)
  unfolding normalize_input
  input-IsRouteOf seen i input r h = ground arith

  -- Input by input, in the same order.
  abbrev pub Routed : List RouteInput → List DomainRoute → Type 0
  Routed [] [] = Unit
  Routed [] (r ∷ rs) = ⊥
  Routed (i ∷ is) [] = ⊥
  Routed (i ∷ is) (r ∷ rs) = IsRouteOf urls stamp allow_direct i r × Routed is rs

abbrev pub Apart : DomainRoute → DomainRoute → Type 0
Apart r s = s.path ≢ r.path

abbrev pub IsRoot : Bytes → DomainRoute → Type 0
IsRoot origin r = (r.path ≡ root) × (r.origin_url ≡ origin) × (r.strip_prefix ≡ false)

unseen :
    (p : Bytes) (seen : List Bytes) (rs : List DomainRoute)
    → All (λ s. seen_path s.path (p ∷ seen) ≡ false) rs
    → All (λ s. s.path ≢ p) rs × All (λ s. seen_path s.path seen ≡ false) rs
unfolding seen_path
unseen p seen [] h = (tt, tt)
unseen p seen (r ∷ rs) (h, hs) =
    let (a, b) = unseen p seen rs hs in
    ((ground (arith, text_eq_iff p r.path), a), (ground arith, b))

-- The loop's result from the default origin `origin`.
pub record IsCollected (urls : UrlLibrary) (stamp : Stamp) (allow_direct : Bool) (seen : List Bytes)
    (origin : Bytes) (inputs : List RouteInput) (rs : List DomainRoute) (d : Bytes) : Type 0 where
  pub routed : Routed urls stamp allow_direct inputs rs
  pub fresh : All (λ r. seen_path r.path seen ≡ false) rs
  pub distinct : Distinct Apart rs
  pub rooted : (d ≡ origin) ⊎ Some (IsRoot d) rs

module _ (urls : UrlLibrary) (stamp : Stamp) (allow_direct : Bool) where
  rooted_step :
      (origin d : Bytes) (route : DomainRoute) (rest : List DomainRoute)
      → (text_eq route.path root && route.strip_prefix) ≡ false
      → (d ≡ (if text_eq route.path root then route.origin_url else origin)) ⊎ Some (IsRoot d) rest
      → (d ≡ origin) ⊎ Some (IsRoot d) (route ∷ rest)
  rooted_step origin d route rest kept (inr some_root) = inr (inr some_root)
  rooted_step origin d route rest kept (inl e) = elim (Bool-cases (text_eq route.path root)) [
    | inl is_root ↦
        let here : d ≡ route.origin_url = rw is_root at e in
        inr (inl ((text_eq_iff route.path root).0 is_root, sym here, rw is_root at kept))
    | inr other ↦ inl (rw other at e)
  ]

  pub collect-IsCollected :
      (seen : List Bytes) (i : ℕ) (origin : Bytes) (inputs : List RouteInput)
      (o : List DomainRoute × Bytes)
      → collect urls stamp allow_direct seen i origin inputs ≡ ok o
      → IsCollected urls stamp allow_direct seen origin inputs o.0 o.1
  unfolding collect
  collect-IsCollected seen i origin [] o h =
      subst
        (λ (x : List DomainRoute × Bytes).
          IsCollected urls stamp allow_direct seen origin [] x.0 x.1)
        (ok-injective h) (record { routed = tt; fresh = tt; distinct = tt; rooted = inl refl })
  collect-IsCollected seen i origin (input ∷ inputs) o h =
      let (route, e, h') =
        >>=-eq-ok (normalize_input urls stamp allow_direct seen i input)
          (λ route. do
            rest ←
                collect urls stamp allow_direct (route.path ∷ seen) (i + 1)
                  (if text_eq route.path root then route.origin_url else origin) inputs
            ok (route ∷ rest.0, rest.1))
          h in
      let (rest, e', h'') =
        >>=-eq-ok
          (collect urls stamp allow_direct (route.path ∷ seen) (i + 1)
            (if text_eq route.path root then route.origin_url else origin) inputs)
          (λ rest. ok (route ∷ rest.0, rest.1)) h' in
      let (this, new) = input-IsRouteOf urls stamp allow_direct seen i input route e in
      let ih =
        collect-IsCollected (route.path ∷ seen) (i + 1)
          (if text_eq route.path root then route.origin_url else origin) inputs rest e' in
      let (apart, fresh) = unseen route.path seen rest.0 ih.fresh in
      subst
        (λ (x : List DomainRoute × Bytes).
          IsCollected urls stamp allow_direct seen origin (input ∷ inputs) x.0 x.1)
        (ok-injective h'')
        (record {
          routed = (this, ih.routed);
          fresh = (new, fresh);
          distinct = (apart, ih.distinct);
          rooted = rooted_step origin rest.1 route rest.0 this.root_kept ih.rooted;
        })
