-- ===== src/Routes/Persisted.antt =====
-- `normalizePersistedRoutes` on what the database holds.
use tunnel_manager.Prelude.{
  ℕ, suc, ◌+◌, ◌≤◌, ◌≡◌, refl, sym, ap, ◌∙◌, ◌≢◌, ◌⊎◌, inl, inr, true, false, ◌||◌, ◌&&◌, List, [],
  ◌∷◌, map, Option, none, some, ok, length, All, Some, Bool-cases, arith, ◌==◌, ltb, if◌then◌else◌,
}
use tunnel_manager.Prelude.Strict.{Distinct}
use tunnel_manager.Prelude.Text.{Bytes, text_eq, text_eq_iff, text_eq_refl}
use tunnel_manager.Prelude.Text.Order.{path_before, sort, sort-map}
use tunnel_manager.Model.{DomainRoute, UrlLibrary}
use tunnel_manager.Routes.{
  root, is_empty, Stamp, normalize_route_path, normalize_origin_url, seen_path, normalize_input,
  collect, route_before, normalize_routes_with_legacy_paths, max_domain_routes, route_inputs,
  find_route, restore, restored, normalize_persisted_routes,
}
use tunnel_manager.Routes.Collect.{Apart, IsRoot}

-- A route that the checks take as it is.
pub record IsStable (urls : UrlLibrary) (stamp : Stamp) (r : DomainRoute) : Type 0 where
  pub path : normalize_route_path r.path ≡ ok r.path
  pub origin : normalize_origin_url urls r.origin_url r.strip_prefix true ≡ ok r.origin_url
  pub some_origin : is_empty r.origin_url ≡ false
  pub root_kept : (text_eq r.path root && r.strip_prefix) ≡ false
  pub owned : r.domain_id ≡ stamp.domain_id

abbrev restamped : Stamp → ℕ → DomainRoute → DomainRoute
restamped stamp i r = record r {
  id = stamp.new_id i;
  domain_id = stamp.domain_id;
  created_at = stamp.now;
  updated_at = stamp.now;
}

restamped_all : Stamp → ℕ → List DomainRoute → List DomainRoute
restamped_all stamp i [] = []
restamped_all stamp i (r ∷ rs) = restamped stamp i r ∷ restamped_all stamp (i + 1) rs

-- The default origin after the loop.
last_origin : Bytes → List DomainRoute → Bytes
last_origin origin [] = origin
last_origin origin (r ∷ rs) = last_origin (if text_eq r.path root then r.origin_url else origin) rs

module _ (urls : UrlLibrary) (stamp : Stamp) where
  input_again :
      (seen : List Bytes) (i : ℕ) (r : DomainRoute)
      → IsStable urls stamp r
      → seen_path r.path seen ≡ false
      → normalize_input urls stamp true seen i
          (record { path = r.path; origin_url = r.origin_url; strip_prefix = r.strip_prefix })
        ≡ ok (restamped stamp i r)
  unfolding normalize_input
  input_again seen i r s new = rw (s.path, new, s.root_kept, s.origin)

  unseen_again :
      (p : Bytes) (seen : List Bytes) (rs : List DomainRoute)
      → All (λ s. s.path ≢ p) rs
      → All (λ s. seen_path s.path seen ≡ false) rs
      → All (λ s. seen_path s.path (p ∷ seen) ≡ false) rs
  unfolding seen_path
  unseen_again p seen [] h k = tt
  unseen_again p seen (r ∷ rs) (h, hs) (k, ks) = (
    elim (Bool-cases (text_eq p r.path)) [
      | inl e ↦ absurd (h (sym ((text_eq_iff p r.path).0 e)))
      | inr e ↦ rw (e, k)
    ],
    unseen_again p seen rs hs ks,
  )

  collect_again :
      (seen : List Bytes) (i : ℕ) (origin : Bytes) (rs : List DomainRoute)
      → All (IsStable urls stamp) rs
      → Distinct Apart rs
      → All (λ r. seen_path r.path seen ≡ false) rs
      → collect urls stamp true seen i origin (route_inputs rs)
        ≡ ok (restamped_all stamp i rs, last_origin origin rs)
  unfolding collect route_inputs restamped_all last_origin
  collect_again seen i origin [] s d n = refl
  collect_again seen i origin (r ∷ rs) (s, ss) (d, ds) (n, ns) = rw (
    input_again seen i r s n,
    collect_again (r.path ∷ seen) (i + 1) (if text_eq r.path root then r.origin_url else origin) rs
        ss ds (unseen_again r.path seen rs d ns),
  )

  origin_next :
      (d origin : Bytes) (r : DomainRoute) (rs : List DomainRoute)
      → IsStable urls stamp r
      → (is_empty origin ≡ false) ⊎ Some (IsRoot d) (r ∷ rs)
      → (is_empty (if text_eq r.path root then r.origin_url else origin) ≡ false)
        ⊎ Some (IsRoot d) rs
  origin_next d origin r rs s (inl e) =
      inl (elim (Bool-cases (text_eq r.path root)) [ inl q ↦ rw q s.some_origin | inr q ↦ rw q e ])
  origin_next d origin r rs s (inr (inl here)) =
      inl (rw ((text_eq_iff r.path root).1 here.0) s.some_origin)
  origin_next d origin r rs s (inr (inr later)) = inr later

  last_origin-some :
      (d : Bytes) (rs : List DomainRoute) (origin : Bytes)
      → All (IsStable urls stamp) rs
      → (is_empty origin ≡ false) ⊎ Some (IsRoot d) rs
      → is_empty (last_origin origin rs) ≡ false
  unfolding last_origin
  last_origin-some d [] origin s (inl h) = h
  last_origin-some d [] origin s (inr h) = absurd h
  last_origin-some d (r ∷ rs) origin (s, ss) h =
      last_origin-some d rs (if text_eq r.path root then r.origin_url else origin) ss
        (origin_next d origin r rs s h)

find_route-none :
    (p : Bytes) (rs : List DomainRoute) → All (λ s. s.path ≢ p) rs → find_route p rs ≡ none
unfolding find_route
find_route-none p [] h = refl
find_route-none p (r ∷ rs) (h, hs) =
    rw (find_route-none p rs hs) (elim (Bool-cases (text_eq r.path p)) [
      | inl e ↦ absurd (h ((text_eq_iff r.path p).0 e))
      | inr e ↦ rw e
    ])

find_route-All :
    (rs : List DomainRoute) → Distinct Apart rs → All (λ r. find_route r.path rs ≡ some r) rs
unfolding find_route
find_route-All [] d = tt
find_route-All (r ∷ rs) (d, ds) =
    (rw (find_route-none r.path rs d, text_eq_refl r.path), later rs (find_route-All rs ds))
  where
    later :
        (ss : List DomainRoute)
        → All (λ s. find_route s.path rs ≡ some s) ss
        → All (λ s. find_route s.path (r ∷ rs) ≡ some s) ss
    later [] h = tt
    later (s ∷ ss) (h, hs) = (rw h, later ss hs)

restored_self :
    (urls : UrlLibrary) (stamp : Stamp) (i : ℕ) (r : DomainRoute)
    → IsStable urls stamp r
    → restored (some r) (restamped stamp i r) ≡ r
restored_self urls stamp i r s = ap (λ d. record r { domain_id = d }) (sym s.owned)

restore-restamped :
    (urls : UrlLibrary) (stamp : Stamp) (persisted : List DomainRoute) (i : ℕ)
    (rs : List DomainRoute)
    → All (IsStable urls stamp) rs
    → All (λ r. find_route r.path persisted ≡ some r) rs
    → map (restore persisted) (restamped_all stamp i rs) ≡ rs
unfolding restore restamped_all
restore-restamped urls stamp persisted i [] s f = refl
restore-restamped urls stamp persisted i (r ∷ rs) (s, ss) (f, fs) =
    ap
      (λ o.
        restored o (restamped stamp i r) ∷ map (restore persisted) (restamped_all stamp (i + 1) rs))
      f
    ∙ (ap (λ x. x ∷ map (restore persisted) (restamped_all stamp (i + 1) rs))
          (restored_self urls stamp i r s)
        ∙ ap (λ l. r ∷ l) (restore-restamped urls stamp persisted (i + 1) rs ss fs))

restored-path : (o : Option DomainRoute) (r : DomainRoute) → (restored o r).path ≡ r.path
restored-path none r = refl
restored-path (some a) r = refl

restore-path :
    (persisted : List DomainRoute) (r : DomainRoute) → (restore persisted r).path ≡ r.path
unfolding restore
restore-path persisted r = restored-path (find_route r.path persisted) r

same_order :
    (persisted : List DomainRoute) (a b : DomainRoute)
    → route_before (restore persisted a) (restore persisted b) ≡ route_before a b
same_order persisted a b =
    ap (λ p. path_before p (restore persisted b).path) (restore-path persisted a)
    ∙ ap (path_before a.path) (restore-path persisted b)

unseen_nil : (rs : List DomainRoute) → All (λ r. seen_path r.path [] ≡ false) rs
unfolding seen_path
unseen_nil [] = tt
unseen_nil (r ∷ rs) = (refl, unseen_nil rs)

length-route_inputs : (rs : List DomainRoute) → length (route_inputs rs) ≡ length rs
unfolding route_inputs
length-route_inputs [] = refl
length-route_inputs (r ∷ rs) = ap suc (length-route_inputs rs)

-- Between 1 and 50 persisted routes with different paths, a root among them, each of which the
-- checks take as it is, are accepted with their identifiers and times, whatever the new ones would
-- have been, and sorted with the longest path first.
pub normalize_persisted_routes_self :
    (urls : UrlLibrary) (stamp : Stamp) (persisted : List DomainRoute) (d : Bytes)
    → length persisted ≤ max_domain_routes
    → All (IsStable urls stamp) persisted
    → Distinct Apart persisted
    → Some (IsRoot d) persisted
    → normalize_persisted_routes urls stamp persisted ≡ ok (sort route_before persisted)
unfolding normalize_persisted_routes normalize_routes_with_legacy_paths seen_path
normalize_persisted_routes_self urls stamp [] d few stable distinct rooted = absurd rooted
normalize_persisted_routes_self urls stamp (r ∷ rs) d few stable distinct rooted =
    let persisted = r ∷ rs in
    let collected =
      collect_again urls stamp [] 0 [] persisted stable distinct (unseen_nil persisted) in
    let origin = last_origin-some urls stamp d persisted [] stable (inr rooted) in
    let size : (length (route_inputs persisted) == 0
          || ltb max_domain_routes (length (route_inputs persisted)))
        ≡ false =
      ground (arith, length-route_inputs persisted, few) in
    rw (size, collected, origin)
      (ap ok (
        sort-map route_before (restore persisted) (same_order persisted)
          (restamped_all stamp 0 persisted)
        ∙ ap (sort route_before) (
            restore-restamped urls stamp persisted 0 persisted stable
              (find_route-All persisted distinct))))
