-- ===== src/Service/Startup.antt =====
-- `Reconcile` of internal/services/domain/service.go: what the first start does with the domains that
-- the database holds. The processes of the pool are started one after the other.
pub mod Untouched
pub mod Hydration
pub mod Reconciling
use tunnel_manager.Prelude.{
  Bool, true, false, List, [], ◌∷◌, ◌++◌, map, Option, none, some, Result, ok, err, if◌then◌else◌,
  error_text,
}
use tunnel_manager.Prelude.Text.{Bytes, codes}
use tunnel_manager.Model.{DomainRoute, Domain, error, is_active}
use tunnel_manager.Repo
use tunnel_manager.Pagination.{list_all}
use tunnel_manager.Proxy.{commit_domain}
use tunnel_manager.Crypto.{decrypt}
use tunnel_manager.Routes.{normalize_persisted_routes}
use tunnel_manager.Service.World.{
  queried, Outside, Run, ◌>>=◌, ◌>>◌, return, try, wrap_err, read, perform, with_proxy,
}
use tunnel_manager.Service.Operations.{naming, stamp_of, spawn, update_rows, no_rows}

unfoldable pub validated : Outside → Domain → List DomainRoute → Run (List DomainRoute)
validated o d persisted w = (
  w,
  wrap_err (codes "service: validate routes for " ++ d.id)
      (normalize_persisted_routes o.net.urls (stamp_of o d.id w) persisted),
)

-- The first loop: every domain's routes are checked and put into the proxy; the active ones are kept.
pub hydrate : Outside → (Bytes → List DomainRoute) → List Domain → Run (List Domain)
unfolding validated
hydrate o persisted [] = return []
hydrate o persisted (d ∷ ds) = validated o d (persisted d.id) >>= λ routes.
    naming (codes "service: hydrate ingress proxy for " ++ d.id)
      (with_proxy (λ p. commit_domain o.net p d.id d.hostname routes))
    >>= λ _. hydrate o persisted ds >>= λ rest.
        return (if is_active d.status then record d { routes = routes } ∷ rest else rest)

abbrev pub failed_with : Domain → Bytes → Domain
failed_with d m = record d { status = error; last_error = m }

abbrev pub started_or_failed : Domain → Result (Unit {0}) → Option Domain
started_or_failed d (ok _) = none
started_or_failed d (err e) = some (failed_with d (error_text e))

abbrev pub spawn_decrypted : Outside → Domain → Result Bytes → Run (Option Domain)
spawn_decrypted o d (err e) =
    return (some (failed_with d (codes "reconcile: decrypt token: " ++ error_text e)))
spawn_decrypted o d (ok token) =
    try (spawn o d.id) >>= λ started. return (started_or_failed d started)

unfoldable pub respawn : Outside → Domain → Run (Option Domain)
unfolding spawn
respawn o d = spawn_decrypted o d (decrypt o.cipher o.key d.encrypted_tunnel_token)

abbrev pub keep : Option Domain → List Domain → List Domain
keep none ds = ds
keep (some d) ds = d ∷ ds

pub respawn_all : Outside → List Domain → Run (List Domain)
unfolding respawn
respawn_all o [] = return []
respawn_all o (d ∷ ds) = respawn o d >>= λ f. respawn_all o ds >>= λ fs. return (keep f fs)

-- `ListRoutesByDomainIDs` asks nothing for no identifiers.
abbrev pub queried_unless : Bool → Outside → Run (Unit {0})
queried_unless true o = return tt
queried_unless false o = perform o queried

abbrev pub id_of : Domain → Bytes
id_of d = d.id

unfoldable pub reconcile : Outside → Run (Unit {0})
unfolding hydrate respawn_all update_rows
reconcile o = (perform o queried >> read (λ w. list_all w.db [])) >>= λ all.
    (queried_unless (no_rows all) o
      >> read (λ w. Repo.list_routes_by_domain_ids w.db (map id_of all)))
    >>= λ persisted. hydrate o persisted all >>= λ active.
        respawn_all o active >>= λ failed. update_rows o failed
