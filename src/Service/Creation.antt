-- ===== src/Service/Creation.antt =====
-- internal/services/domain/create.go. A revert function covers all that comes after it, and the
-- ones that came later run first.
use tunnel_manager.Prelude.{
  ℕ, List, [], Result, ok, err, detail, both, sentinel, external, cloudflare_unavailable, refuse,
  error_text,
}
use tunnel_manager.Prelude.Text.{Bytes, codes}
use tunnel_manager.Model.{
  DomainRoute, Domain, RouteInput, CloudflareZone, TunnelInfo, pending, error,
}
use tunnel_manager.Repo
use tunnel_manager.PortAlloc.{allocate}
use tunnel_manager.Proxy.{commit_domain, remove_domain}
use tunnel_manager.Crypto.{encrypt}
use tunnel_manager.Zones.{validate_zone_hostname}
use tunnel_manager.Service.World.{
  zones_listed, tunnel_created, tunnel_deleted, record_created, record_deleted, queried, Outside,
  World, Run, ◌>>=◌, ◌>>◌, return, lift, try, read, modify, ask, perform, with_proxy, succeeded,
}
use tunnel_manager.Service.Operations.{
  naming, normalized, put_ingress, create_row, update_row, spawn,
}

abbrev pub unavailable : Result (List CloudflareZone) → Result (List CloudflareZone)
unavailable (ok zones) = ok zones
unavailable (err e) = err (both (sentinel cloudflare_unavailable) (codes "list zones") e)

unfoldable pub list_cloudflare_zones : Outside → Run (List CloudflareZone)
list_cloudflare_zones o w =
    ((ask zones_listed o.zones w).0, unavailable (ask zones_listed o.zones w).1)

abbrev pub reverted : {A : Type 0} → Run (Unit {0}) → World × Result A → World × Result A
reverted undo (w, ok a) = (w, ok a)
reverted undo (w, err e) = ((undo w).0, err e)

-- `revertFuncs = append(revertFuncs, undo)`, for the rest `m` of the body.
abbrev pub or_revert : {A : Type 0} → Run A → Run (Unit {0}) → Run A
or_revert m undo w = reverted undo (m w)

-- What the body has fixed before its first call that changes something.
pub record Draft : Type 0 where
  pub id : Bytes
  pub hostname : Bytes
  pub zone_id : Bytes
  pub routes : List DomainRoute
  pub default_origin : Bytes
  pub now : ℕ

abbrev pub domain_of : Draft → TunnelInfo → Bytes → Bytes → ℕ → Domain
domain_of d tunnel record_id token port = record {
  id = d.id;
  hostname = d.hostname;
  origin_url = d.default_origin;
  cloudflare_zone_id = d.zone_id;
  cloudflare_tunnel_id = tunnel.tunnel_id;
  dns_record_id = record_id;
  encrypted_tunnel_token = token;
  status = pending;
  metrics_port = port;
  pid = 0;
  restart_count = 0;
  last_error = [];
  created_at = d.now;
  updated_at = d.now;
  routes = d.routes;
}

-- A domain whose process does not start stays, with the error.
abbrev pub spawned_or_error : Outside → Domain → Result (Unit {0}) → Run Domain
spawned_or_error o d (ok _) = return d
spawned_or_error o d (err e) =
    let failed = record d { status = error; last_error = error_text e } in
    try (update_row o failed) >>= λ _. return failed

unfoldable pub persist : Outside → Draft → TunnelInfo → Bytes → Run Domain
persist o d tunnel record_id =
    naming (codes "service: encrypt token")
      (λ w. (w, encrypt o.cipher (o.random w.history) o.key tunnel.token))
    >>= λ token. naming (codes "service: list taken ports") (perform o queried) >>= λ _.
        read (λ w. Repo.list_taken_ports w.db.domains) >>= λ taken.
        naming (codes "service: allocate metrics port") (lift (allocate o.ports taken)) >>= λ port.
        naming (codes "service: persist domain")
          (create_row o (domain_of d tunnel record_id token port))
        >>= λ _. try (spawn o d.id) >>= λ started.
            spawned_or_error o (domain_of d tunnel record_id token port) started

abbrev pub ingress_failed : World × Result (Unit {0}) → World × Result (Unit {0})
ingress_failed (w, ok _) = (w, ok tt)
ingress_failed (w, err e) =
    (w, err (detail (sentinel cloudflare_unavailable) (codes "put ingress config")))

abbrev pub undo_record : Outside → Draft → Bytes → Run (Unit {0})
undo_record o d record_id = perform o (record_deleted d.zone_id record_id)

abbrev pub undo_proxy : Draft → Run (Unit {0})
undo_proxy d = modify (λ w. record w { proxy = remove_domain w.proxy d.id })

abbrev pub undo_tunnel : Outside → TunnelInfo → Run (Unit {0})
undo_tunnel o tunnel = perform o (tunnel_deleted tunnel.tunnel_id)

unfoldable pub with_proxy_entry : Outside → Draft → TunnelInfo → Run Domain
unfolding put_ingress persist
with_proxy_entry o d tunnel =
    (λ w. ingress_failed (put_ingress o (domain_of d tunnel [] [] 0) d.routes w)) >>= λ _.
    naming (codes "service: create dns record") (
      ask (record_created d.zone_id d.hostname tunnel.tunnel_id)
        (λ h. o.new_record h d.zone_id d.hostname tunnel.tunnel_id))
    >>= λ record_id. or_revert (persist o d tunnel record_id) (undo_record o d record_id)

unfoldable pub with_tunnel : Outside → Draft → TunnelInfo → Run Domain
unfolding with_proxy_entry
with_tunnel o d tunnel =
    naming (codes "service: prepare ingress proxy")
      (with_proxy (λ p. commit_domain o.net p d.id d.hostname d.routes))
    >>= λ _. or_revert (with_proxy_entry o d tunnel) (undo_proxy d)

unfoldable pub build : Outside → Draft → Run Domain
unfolding with_tunnel
build o d =
    naming (codes "service: create tunnel")
      (ask (tunnel_created d.hostname) (λ h. o.new_tunnel h d.hostname))
    >>= λ tunnel. or_revert (with_tunnel o d tunnel) (undo_tunnel o tunnel)

-- The checks that come first. The calls of `uuid.NewString` for the domain and for its routes differ
-- by their number.
unfoldable pub draft : Outside → Bytes → Bytes → List RouteInput → Run Draft
unfolding list_cloudflare_zones normalized
draft o hostname zone_id inputs = list_cloudflare_zones o >>= λ zones.
    lift (validate_zone_hostname o.net.unicode zones zone_id hostname) >>= λ host.
    try (perform o queried >> λ w. (w, Repo.get_by_hostname w.db host)) >>= λ existing.
    lift (refuse (succeeded existing) (external (codes "service: hostname already registered")))
    >>= λ _. read (λ w. (o.clock w.history, o.uuid w.history 0)) >>= λ (now, id).
        normalized o id inputs >>= λ (routes, origin). return (record {
          id = id;
          hostname = host;
          zone_id = zone_id;
          routes = routes;
          default_origin = origin;
          now = now;
        })

unfoldable pub create_domain : Outside → Bytes → Bytes → List RouteInput → Run Domain
unfolding draft build
create_domain o hostname zone_id inputs = draft o hostname zone_id inputs >>= λ d. build o d
