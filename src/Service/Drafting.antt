-- ===== src/Service/Drafting.antt =====
-- The checks at the beginning of `CreateDomain` of internal/services/domain/create.go.
use tunnel_manager.Prelude.{◌≡◌, refl, ap, ◌∙◌, List, ◌∷◌, none, Result, ok, err, refuse, external}
use tunnel_manager.Prelude.Text.{Bytes, codes}
use tunnel_manager.Model.{Domain, RouteInput}
use tunnel_manager.Repo
use tunnel_manager.Proxy.Table.{lookup}
use tunnel_manager.Zones.{validate_zone_hostname}
use tunnel_manager.Service.World.{
  Entry, Outside, World, Run, next, ◌>>=◌, ◌>>◌, try, try_of, return, ask, perform, queried,
  succeeded,
}
use tunnel_manager.Service.Operations.{normalized}
use tunnel_manager.Service.Creation.{Draft, list_cloudflare_zones, draft, build, create_domain}
use tunnel_manager.Service.Revert.{Fails, AllKept, IsUndone, build-IsUndone}

record Quiet (w v : World) : Type 0 where
  db : v.db ≡ w.db
  proxy : v.proxy ≡ w.proxy

-- What the checks come to: nothing changed, and if they pass, an identifier of `uuid.NewString`.
Drafted : Outside → World → World × Result Draft → Type 0
Drafted o w (v, ok d) = Quiet w v × ((h : List Entry) × (d.id ≡ o.uuid h 0))
Drafted o w (v, err e) = Quiet w v

module _ (o : Outside) (w : World) where
  next-Drafted :
      {A : Type 0} (f : A → Run Draft) (r : World × Result A)
      → Quiet w r.0
      → ((a : A) (v : World) → Quiet w v → Drafted o w (f a v))
      → Drafted o w (next f r)
  unfolding Drafted next
  next-Drafted f (v, ok a) q h = h a v q
  next-Drafted f (v, err e) q h = q

  queried-Quiet :
      {A : Type 0} (k : World → Result A) (v : World)
      → Quiet w v
      → Quiet w (try (perform o queried >> λ u. (u, k u)) v).0
  unfolding perform ask next
  queried-Quiet k v q = by_fault (o.fault v.history queried)
    where
      by_fault :
          (r : Result (Unit {0}))
          → Quiet w
              (try_of (
                next
                  (λ _ u. (u, k u))
                  (record v { history = (queried, succeeded r) ∷ v.history }, r))).0
      by_fault (ok _) = record { db = q.db; proxy = q.proxy }
      by_fault (err e) = record { db = q.db; proxy = q.proxy }

  zones-Quiet : Quiet w (list_cloudflare_zones o w).0
  unfolding list_cloudflare_zones ask
  zones-Quiet = record { db = refl; proxy = refl }

  normalized-Quiet :
      (id : Bytes) (inputs : List RouteInput) (v : World)
      → Quiet w v
      → Quiet w (normalized o id inputs v).0
  unfolding normalized
  normalized-Quiet id inputs v q = q

  known-Drafted :
      {A : Type 0} (f : A → Run Draft) (a : A) (v : World)
      → Drafted o w (f a v)
      → Drafted o w (next f (v, ok a))
  unfolding next
  known-Drafted f a v h = h

  stamped-Drafted :
      (hostname zone_id : Bytes) (inputs : List RouteInput) (v : World)
      → Quiet w v
      → Drafted o w (
          (normalized o (o.uuid v.history 0) inputs >>= λ (routes, origin). return (record {
            id = o.uuid v.history 0;
            hostname = hostname;
            zone_id = zone_id;
            routes = routes;
            default_origin = origin;
            now = o.clock v.history;
          }))
            v)
  unfolding Drafted
  stamped-Drafted hostname zone_id inputs v q =
      next-Drafted _ (normalized o (o.uuid v.history 0) inputs v)
        (normalized-Quiet (o.uuid v.history 0) inputs v q) (λ a u k. (k, (v.history, refl)))

  draft-Drafted :
      (hostname zone_id : Bytes) (inputs : List RouteInput)
      → Drafted o w (draft o hostname zone_id inputs w)
  unfolding draft
  draft-Drafted hostname zone_id inputs =
      next-Drafted _ (list_cloudflare_zones o w) zones-Quiet (λ zones w₁ q₁.
        next-Drafted _ (w₁, validate_zone_hostname o.net.unicode zones zone_id hostname) q₁
          (λ host w₂ q₂.
            next-Drafted _ (try (perform o queried >> λ v. (v, Repo.get_by_hostname v.db host)) w₂)
              (queried-Quiet (λ v. Repo.get_by_hostname v.db host) w₂ q₂)
              (λ existing w₃ q₃.
                next-Drafted _
                  (
                    w₃,
                    refuse (succeeded existing)
                        (external (codes "service: hostname already registered")),
                  )
                  q₃
                  (λ _ w₄ q₄.
                    known-Drafted _ (o.clock w₄.history, o.uuid w₄.history 0) w₄
                      (stamped-Drafted host zone_id inputs w₄ q₄)))))

  built-Fails :
      (r : World × Result Draft)
      → ((h : List Entry) → lookup (o.uuid h 0) w.proxy.by_domain ≡ none)
      → Drafted o w r
      → Fails (λ v. AllKept w v.db v.proxy) (next (build o) r)
  unfolding Drafted next Fails
  built-Fails (v, err e) absent q = (q.db, λ j. ap (λ p. lookup j p.by_domain) q.proxy)
  built-Fails (v, ok d) absent (q, (h, named)) = kept (build o d v) (
      build-IsUndone o d v (
        ap (λ p. lookup d.id p.by_domain) q.proxy
        ∙ (ap (λ i. lookup i w.proxy.by_domain) named ∙ absent h)))
    where
      kept :
          (z : World × Result Domain)
          → Fails (IsUndone o d v) z
          → Fails (λ u. AllKept w u.db u.proxy) z
      kept (u, ok a) i = tt
      kept (u, err e) i = (i.db ∙ q.db, λ j. i.proxy j ∙ ap (λ p. lookup j p.by_domain) q.proxy)

-- `CreateDomain`, if `uuid.NewString` gives no identifier that the proxy has: where it fails, in its
-- checks or later, the database and the proxy's entries are as they were.
pub create_domain-Fails :
    (o : Outside) (hostname zone_id : Bytes) (inputs : List RouteInput) (w : World)
    → ((h : List Entry) → lookup (o.uuid h 0) w.proxy.by_domain ≡ none)
    → Fails (λ v. AllKept w v.db v.proxy) (create_domain o hostname zone_id inputs w)
unfolding create_domain
create_domain-Fails o hostname zone_id inputs w absent =
    built-Fails o w (draft o hostname zone_id inputs w) absent
      (draft-Drafted o w hostname zone_id inputs)
