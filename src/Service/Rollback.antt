-- ===== src/Service/Rollback.antt =====
-- How `replaceRoutesLocked` of internal/services/domain/update.go ends.
use tunnel_manager.Prelude.{
  ℕ, ◌≡◌, refl, sym, ap, ◌∙◌, inl, inr, true, false, List, ◌∷◌, ◌++◌, some, Result, ok, err, Error,
}
use tunnel_manager.Prelude.Text.{Bytes, codes}
use mathlib.Core.Path.{subst}
use tunnel_manager.Model.{Domain, DomainRoute}
use tunnel_manager.Routes.{cloudflare_rules}
use tunnel_manager.Repo
use tunnel_manager.Repo.Laws.{replace_routes-IsAtomic}
use tunnel_manager.Proxy.{
  ProxyServer, url, strips, prepare_domain, commit_domain, normalize_hostname,
}
use tunnel_manager.Proxy.Table.{lookup, commit_domain-Installs}
use tunnel_manager.Proxy.Commit.{commit_domain-prepare_domain, prepare_domain-addr}
use tunnel_manager.Service.World.{
  ingress_put, written, Outside, World, next, try, try_of, wrap_err, ask, perform, write_db,
  succeeded, ◌>>=◌,
}
use tunnel_manager.Service.Operations.{
  publish, put_ingress, persist_routes, commit_routes, unpersisted, after_persist, after_put,
  replace_routes_locked,
}

-- The new routes are in the database, in the proxy and at Cloudflare.
pub record IsReplaced (o : Outside) (d : Domain) (routes : List DomainRoute) (origin : Bytes)
    (w w' : World) (d' : Domain) : Type 0 where
  pub db : (now : ℕ) × (Repo.replace_routes w.db now d.id origin routes ≡ (w'.db, ok tt))
  pub entry :
      lookup d.id w'.proxy.by_domain
      ≡ some (record { hostname = normalize_hostname o.net d.hostname; routes = strips routes })
  pub history :
      w'.history
      ≡ (written, true)
        ∷ ((
          ingress_put d.cloudflare_tunnel_id d.hostname (cloudflare_rules (url w.proxy) routes),
          true,
        )
            ∷ w.history)
  pub returned : d'.routes ≡ routes

-- What a run of the update comes to.
unfoldable pub Settles :
    Outside → Domain → List DomainRoute → Bytes → World → World × Result Domain → Type 0
Settles o d routes origin w (w', ok d') = IsReplaced o d routes origin w w' d'
Settles o d routes origin w (w', err e) = w'.db ≡ w.db

module _ (o : Outside) (d : Domain) (old_routes routes : List DomainRoute) (origin : Bytes)
    (w : World) where
  Settled : World × Result Domain → Type 0
  Settled r = Settles o d routes origin w r

  unpersisted-Settled :
      (e : Error) (r : Result (Unit {0})) (w' : World)
      → w'.db ≡ w.db
      → Settled (unpersisted o d old_routes e r w')
  unfolding Settled Settles next
  unpersisted-Settled e (ok _) w' same = same
  unpersisted-Settled e (err _) w' same = same

  failed-Settled :
      (e : Error) (w' : World)
      → w'.db ≡ w.db
      → Settled (after_persist o d old_routes routes origin (err e) w')
  unfolding next put_ingress perform ask
  failed-Settled e w' same =
      unpersisted-Settled e
        (o.fault w'.history (
          ingress_put d.cloudflare_tunnel_id d.hostname
            (cloudflare_rules (url w'.proxy) old_routes)))
        _ same

  commit-Settled :
      (w' : World)
      → (now : ℕ) × (Repo.replace_routes w.db now d.id origin routes ≡ (w'.db, ok tt))
      → w'.history
        ≡ (written, true)
          ∷ ((
            ingress_put d.cloudflare_tunnel_id d.hostname (cloudflare_rules (url w.proxy) routes),
            true,
          )
              ∷ w.history)
      → (commit_domain o.net w'.proxy d.id d.hostname routes).1 ≡ ok tt
      → Settled (commit_routes o d routes origin w')
  unfolding Settled Settles next commit_routes publish
  commit-Settled w' db history accepted =
      elim (commit_domain-Installs o.net w'.proxy d.id d.hostname routes) [
        | inr (e, same) ↦ cc (rw same at accepted)
        | inl (done, installed) ↦
            rw done
              (record { db = db; entry = installed.entry; history = history; returned = refl })
      ]

  saved-Settled :
      (w' : World) (now : ℕ) (z : Repo.Db × Result (Unit {0}))
      → Repo.replace_routes w.db now d.id origin routes ≡ z
      → w'.history
        ≡ (written, true)
          ∷ ((
            ingress_put d.cloudflare_tunnel_id d.hostname (cloudflare_rules (url w.proxy) routes),
            true,
          )
              ∷ w.history)
      → (commit_domain o.net w'.proxy d.id d.hostname routes).1 ≡ ok tt
      → Settled (
          next
            (λ saved. after_persist o d old_routes routes origin saved)
            (try_of (record w' { db = z.0 }, z.1)))
  unfolding next
  saved-Settled w' now (db, ok _) e history accepted =
      commit-Settled (record w' { db = db }) (now, e) history accepted
  saved-Settled w' now (db, err f) e history accepted =
      elim (replace_routes-IsAtomic w.db now d.id origin routes) [
        | inl done ↦ cc (rw e at done)
        | inr (g, failed) ↦
            failed-Settled f (record w' { db = db })
              (ap (λ (x : Repo.Db × Result (Unit {0})). x.0) (sym e ∙ failed))
      ]

  persist-Settled :
      (w' : World)
      → w'.db ≡ w.db
      → w'.history
        ≡ (
          ingress_put d.cloudflare_tunnel_id d.hostname (cloudflare_rules (url w.proxy) routes),
          true,
        )
          ∷ w.history
      → (commit_domain o.net w'.proxy d.id d.hostname routes).1 ≡ ok tt
      → Settled (
          next
            (λ saved. after_persist o d old_routes routes origin saved)
            (try (persist_routes o d routes origin) w'))
  unfolding next persist_routes perform ask
  persist-Settled w' same history accepted = by_fault (o.fault w'.history written)
    where
      by_fault :
          (r : Result (Unit {0}))
          → Settled (
              next
                (λ saved. after_persist o d old_routes routes origin saved)
                (try_of (
                  next
                    (λ _.
                      write_db
                        (λ db. Repo.replace_routes db (o.clock w'.history) d.id origin routes))
                    (record w' { history = (written, succeeded r) ∷ w'.history }, r))))
      by_fault (err e) =
          failed-Settled e (record w' { history = (written, false) ∷ w'.history }) same
      by_fault (ok _) =
          saved-Settled (record w' { history = (written, true) ∷ w'.history }) (o.clock w'.history)
            (Repo.replace_routes w'.db (o.clock w'.history) d.id origin routes)
            (ap (λ db. Repo.replace_routes db (o.clock w'.history) d.id origin routes) (sym same))
            (ap (λ h. (written, true) ∷ h) history) accepted

  put-Settled :
      (w' : World)
      → w'.db ≡ w.db
      → w'.history ≡ w.history
      → url w'.proxy ≡ url w.proxy
      → (commit_domain o.net w'.proxy d.id d.hostname routes).1 ≡ ok tt
      → Settled (
          next
            (λ put. after_put o d old_routes routes origin put)
            (try (put_ingress o d routes) w'))
  unfolding next put_ingress perform ask Settled Settles
  put-Settled w' same history same_url accepted = by_fault (
      o.fault w'.history
        (ingress_put d.cloudflare_tunnel_id d.hostname (cloudflare_rules (url w'.proxy) routes)))
    where
      by_fault :
          (r : Result (Unit {0}))
          → Settled (
              next
                (λ put. after_put o d old_routes routes origin put)
                (
                  record w' {
                    history =
                        (
                          ingress_put d.cloudflare_tunnel_id d.hostname
                              (cloudflare_rules (url w'.proxy) routes),
                          succeeded r,
                        )
                        ∷ w'.history;
                  },
                  ok r,
                ))
      by_fault (err e) = same
      by_fault (ok _) =
          persist-Settled _ same
            (ap
                (λ u.
                  (ingress_put d.cloudflare_tunnel_id d.hostname (cloudflare_rules u routes), true)
                  ∷ w'.history)
                same_url
              ∙ ap
                  (λ h.
                    (
                      ingress_put d.cloudflare_tunnel_id d.hostname
                          (cloudflare_rules (url w.proxy) routes),
                      true,
                    )
                    ∷ h)
                  history)
            accepted

-- `replaceRoutesLocked` ends in one of two ways. It returns the domain with the new routes, the
-- tunnel's configuration was put once and then the database was written once, with the new routes,
-- no other call went out, and the proxy's entry is that of the new routes; or it fails, and the
-- database is as it was.
pub replace_routes_locked-Settles :
    (o : Outside) (d : Domain) (old_routes routes : List DomainRoute) (origin : Bytes) (w : World)
    → Settles o d routes origin w (replace_routes_locked o d old_routes routes origin w)
unfolding replace_routes_locked next Settles Settled url
replace_routes_locked-Settles o d old_routes routes origin w =
    prepared (prepare_domain o.net w.proxy d.id d.hostname old_routes routes) refl
  where
    prepared :
        (r : ProxyServer × Result (Unit {0}))
        → prepare_domain o.net w.proxy d.id d.hostname old_routes routes ≡ r
        → Settles o d routes origin w (
            next
              (λ _.
                try (put_ingress o d routes) >>= λ put. after_put o d old_routes routes origin put)
              (record w { proxy = r.0 }, wrap_err (codes "service: prepare ingress proxy") r.1))
    prepared (p, err e) same = refl
    prepared (p, ok _) same =
        put-Settled o d old_routes routes origin w (record w { proxy = p }) refl refl
          (ap (λ a. codes "http://" ++ a)
            (sym (ap (λ (x : ProxyServer × Result (Unit {0})). x.0.addr) same)
              ∙ prepare_domain-addr o.net w.proxy d.id d.hostname old_routes routes))
          (subst
            (λ (x : ProxyServer × Result (Unit {0})).
              (commit_domain o.net x.0 d.id d.hostname routes).1 ≡ ok tt)
            same
            (commit_domain-prepare_domain o.net w.proxy d.id d.hostname old_routes routes
              (ap (λ (x : ProxyServer × Result (Unit {0})). x.1) same)))
