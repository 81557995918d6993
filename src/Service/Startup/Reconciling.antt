-- ===== src/Service/Startup/Reconciling.antt =====
-- What a successful `Reconcile` leaves in the proxy, and what it never changes.
use tunnel_manager.Prelude.{
  ◌≡◌, refl, sym, ap, ◌∙◌, Bool, true, false, List, [], ◌∷◌, map, Result, ok, err, All,
}
use mathlib.Core.Path.{subst}
use tunnel_manager.Prelude.Strict.{Distinct, Distinct-sort}
use tunnel_manager.Prelude.Text.{Bytes}
use tunnel_manager.Model.{Domain, DomainRoute}
use tunnel_manager.Repo
use tunnel_manager.Pagination.{list_all, row_before}
use tunnel_manager.Pagination.Keys.{OtherId}
use tunnel_manager.Service.World.{
  queried, Outside, World, Run, next, ◌>>=◌, ◌>>◌, read, perform, ask, succeeded, Entry,
}
use tunnel_manager.Service.Operations.{update_rows, no_rows}
use tunnel_manager.Service.Startup.{hydrate, respawn_all, reconcile, id_of, queried_unless}
use tunnel_manager.Service.Startup.Hydration.{IsEntered, Enters, hydrate-Enters}
use tunnel_manager.Service.Startup.Untouched.{Same, next-Same, update_rows-Keeps, respawn_all-Keeps}

-- The map of the routes that the start has read.
abbrev pub persisted_in : World → Bytes → List DomainRoute
persisted_in w = Repo.list_routes_by_domain_ids w.db (map id_of (list_all w.db []))

-- What `Reconcile` comes to.
pub Reconciles : Outside → World → World × Result (Unit {0}) → Type 0
Reconciles o w (v, ok _) =
    (v.db.routes ≡ w.db.routes) × All (IsEntered o (persisted_in w) v.proxy) (list_all w.db [])
Reconciles o w (v, err e) = v.db.routes ≡ w.db.routes

module _ (o : Outside) (w : World) where
  Same-Reconciles :
      (v : World) (r : World × Result (Unit {0}))
      → Same v r.0
      → v.db.routes ≡ w.db.routes
      → All (IsEntered o (persisted_in w) v.proxy) (list_all w.db [])
      → Reconciles o w r
  unfolding Reconciles
  Same-Reconciles v (u, ok _) s h all = (
    s.routes ∙ h,
    subst (λ p. All (IsEntered o (persisted_in w) p) (list_all w.db [])) (sym s.proxy) all,
  )
  Same-Reconciles v (u, err e) s h all = s.routes ∙ h

  -- The second loop and the write of the domains that did not start.
  restarted : List Domain → Run (Unit {0})
  restarted active = respawn_all o active >>= λ failed. update_rows o failed

  hydrated-Reconciles :
      (z : World × Result (List Domain)) (v : World)
      → v.db ≡ w.db
      → Enters o (persisted_in w) (list_all w.db []) v z
      → Reconciles o w (next restarted z)
  unfolding Reconciles Enters next restarted
  hydrated-Reconciles (u, err e) v same h = ap (λ (db : Repo.Db). db.routes) (h ∙ same)
  hydrated-Reconciles (u, ok active) v same (all, kept, h) =
      Same-Reconciles u ((respawn_all o active >>= λ failed. update_rows o failed) u)
        (next-Same (update_rows o) u (respawn_all o active u) (respawn_all-Keeps o active u)
          (update_rows-Keeps o))
        (ap (λ (db : Repo.Db). db.routes) (h ∙ same)) all

  hydrate-Reconciles :
      (v : World)
      → Distinct OtherId w.db.domains
      → v.db ≡ w.db
      → Reconciles o w (next restarted (hydrate o (persisted_in w) (list_all w.db []) v))
  unfolding list_all
  hydrate-Reconciles v h same =
      hydrated-Reconciles (hydrate o (persisted_in w) (list_all w.db []) v) v same (
        hydrate-Enters o (persisted_in w) (list_all w.db []) v
          (Distinct-sort row_before OtherId (λ a b p q. p (sym q)) w.db.domains h))

  -- A read of the database, in a world that differs from the first one by its history.
  queried-Reconciles :
      {A : Type 0} (k : Run A) (f : A → Run (Unit {0})) (hs : List Entry)
      → ((hs : List Entry) → Reconciles o w (next f (k (record w { history = hs }))))
      → Reconciles o w (next f ((perform o queried >> k) (record w { history = hs })))
  unfolding perform ask next Reconciles
  queried-Reconciles k f hs h = by_fault (o.fault hs queried)
    where
      by_fault :
          (r : Result (Unit {0}))
          → Reconciles o w
              (next f (next (λ _. k) (record w { history = (queried, succeeded r) ∷ hs }, r)))
      by_fault (ok _) = h ((queried, true) ∷ hs)
      by_fault (err e) = refl

  unless-Reconciles :
      {A : Type 0} (none_asked : Bool) (k : Run A) (f : A → Run (Unit {0})) (hs : List Entry)
      → ((hs : List Entry) → Reconciles o w (next f (k (record w { history = hs }))))
      → Reconciles o w (next f ((queried_unless none_asked o >> k) (record w { history = hs })))
  unfolding next
  unless-Reconciles true k f hs h = h hs
  unless-Reconciles false k f hs h = queried-Reconciles k f hs h

-- Where no two domains share an identifier: `Reconcile` never changes the stored routes, whatever
-- the outside answers and whichever processes do not start, and if it succeeds, then the proxy's
-- entry of every domain has the domain's hostname and those of its stored routes, validated, that
-- strip their prefix.
pub reconcile-Reconciles :
    (o : Outside) (w : World) → Distinct OtherId w.db.domains → Reconciles o w (reconcile o w)
unfolding reconcile next restarted
reconcile-Reconciles o w h =
    queried-Reconciles o w (read (λ v. list_all v.db []))
      (λ all.
        (queried_unless (no_rows all) o
          >> read (λ v. Repo.list_routes_by_domain_ids v.db (map id_of all)))
        >>= λ persisted. hydrate o persisted all >>= restarted o w)
      w.history
      (λ hs.
        unless-Reconciles o w (no_rows (list_all w.db []))
          (read (λ v. Repo.list_routes_by_domain_ids v.db (map id_of (list_all w.db []))))
          (λ persisted. hydrate o persisted (list_all w.db []) >>= restarted o w) hs
          (λ hs'. hydrate-Reconciles o w (record w { history = hs' }) h refl))
