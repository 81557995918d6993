-- ===== src/Service/Startup/Hydration.antt =====
-- The first loop of `Reconcile`.
use tunnel_manager.Prelude.{
  ◌≡◌, refl, sym, ◌∙◌, false, List, [], ◌∷◌, ◌++◌, some, Result, ok, err, Bool-cases, inl, inr, All,
  if◌then◌else◌,
}
use tunnel_manager.Prelude.Strict.{Distinct}
use tunnel_manager.Prelude.Text.{Bytes, codes, text_eq, text_eq_iff}
use tunnel_manager.Model.{Domain, DomainRoute, is_active}
use tunnel_manager.Pagination.Keys.{OtherId}
use tunnel_manager.Proxy.{ProxyServer, normalize_hostname, strips, commit_domain}
use tunnel_manager.Proxy.Table.{lookup, Installs, commit_domain-Installs}
use tunnel_manager.Routes.{Stamp, normalize_persisted_routes}
use tunnel_manager.Service.World.{Outside, World, Run, next, ◌>>=◌, return, wrap_err, with_proxy}
use tunnel_manager.Service.Operations.{naming, stamp_of}
use tunnel_manager.Service.Startup.{validated, hydrate}

module _ (o : Outside) (persisted : Bytes → List DomainRoute) where
  -- The proxy has the routes of the domain that strip their prefix, as they are after validation.
  pub record IsEntered (p : ProxyServer) (d : Domain) : Type 0 where
    pub stamp : Stamp
    pub routes : List DomainRoute
    pub accepted : normalize_persisted_routes o.net.urls stamp (persisted d.id) ≡ ok routes
    pub entry :
        lookup d.id p.by_domain
        ≡ some (record { hostname = normalize_hostname o.net d.hostname; routes = strips routes })

  -- What the first loop comes to: every domain is entered, and no other entry has changed; or it
  -- stops, with the database as it was.
  unfoldable pub Enters : List Domain → World → World × Result (List Domain) → Type 0
  Enters ds w (v, ok active) =
      All (IsEntered v.proxy) ds
      × ((j : Bytes)
          → All (λ d. text_eq d.id j ≡ false) ds
          → lookup j v.proxy.by_domain ≡ lookup j w.proxy.by_domain)
      × (v.db ≡ w.db)
  Enters ds w (v, err e) = v.db ≡ w.db

  others_apart :
      (d : Domain) (ds : List Domain) → All (OtherId d) ds → All (λ e. text_eq e.id d.id ≡ false) ds
  others_apart d [] h = tt
  others_apart d (e ∷ ds) (h, hs) = (
    elim (Bool-cases (text_eq e.id d.id)) [
      | inl q ↦ absurd (h (sym ((text_eq_iff e.id d.id).0 q)))
      | inr q ↦ q
    ],
    others_apart d ds hs,
  )

  entered-Enters :
      (d : Domain) (ds : List Domain) (routes : List DomainRoute) (stamp : Stamp) (w : World)
      (p : ProxyServer) (z : World × Result (List Domain))
      → normalize_persisted_routes o.net.urls stamp (persisted d.id) ≡ ok routes
      → Installs w.proxy p d.id (normalize_hostname o.net d.hostname) routes
      → All (OtherId d) ds
      → Enters ds (record w { proxy = p }) z
      → Enters (d ∷ ds) w (
          next
            (λ rest.
              return (if is_active d.status then record d { routes = routes } ∷ rest else rest))
            z)
  unfolding Enters next
  entered-Enters d ds routes stamp w p (v, ok active) e i apart (all, kept, same) = (
    (
      record {
        stamp = stamp;
        routes = routes;
        accepted = e;
        entry = kept d.id (others_apart d ds apart) ∙ i.entry;
      },
      all,
    ),
    (λ j h. kept j h.1 ∙ i.others j h.0),
    same,
  )
  entered-Enters d ds routes stamp w p (v, err f) e i apart h = h

  pub hydrate-Enters :
      (ds : List Domain) (w : World) → Distinct OtherId ds → Enters ds w (hydrate o persisted ds w)
  unfolding hydrate validated Enters next
  hydrate-Enters [] w h = (tt, λ j k. refl, refl)
  hydrate-Enters (d ∷ ds) w (apart, h) =
      by_validation (normalize_persisted_routes o.net.urls (stamp_of o d.id w) (persisted d.id))
        refl (λ v. hydrate-Enters ds v h)
    where
      rest : List DomainRoute → Unit {0} → Run (List Domain)
      rest routes _ = hydrate o persisted ds >>= λ rest.
          return (if is_active d.status then record d { routes = routes } ∷ rest else rest)

      by_commit :
          (routes : List DomainRoute)
          → normalize_persisted_routes o.net.urls (stamp_of o d.id w) (persisted d.id) ≡ ok routes
          → ((v : World) → Enters ds v (hydrate o persisted ds v))
          → Enters (d ∷ ds) w (
              (naming
                    (codes "service: hydrate ingress proxy for " ++ d.id)
                    (with_proxy (λ p. commit_domain o.net p d.id d.hostname routes))
                  >>= rest routes)
                w)
      by_commit routes e ih = elim (commit_domain-Installs o.net w.proxy d.id d.hostname routes) [
        | inr (f, failed) ↦ rw failed refl
        | inl (done, installed) ↦ rw done (
            entered-Enters d ds routes (stamp_of o d.id w) w
              (commit_domain o.net w.proxy d.id d.hostname routes).0 _ e installed apart
              (ih (record w { proxy = (commit_domain o.net w.proxy d.id d.hostname routes).0 })))
      ]

      by_validation :
          (r : Result (List DomainRoute))
          → normalize_persisted_routes o.net.urls (stamp_of o d.id w) (persisted d.id) ≡ r
          → ((v : World) → Enters ds v (hydrate o persisted ds v))
          → Enters (d ∷ ds) w (
              next
                (λ routes.
                  naming
                    (codes "service: hydrate ingress proxy for " ++ d.id)
                    (with_proxy (λ p. commit_domain o.net p d.id d.hostname routes))
                  >>= rest routes)
                (w, wrap_err (codes "service: validate routes for " ++ d.id) r))
      by_validation (err f) e ih = refl
      by_validation (ok routes) e ih = by_commit routes e ih
