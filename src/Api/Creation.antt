-- ===== src/Api/Creation.antt =====
-- The answer of `createDomain` of internal/application/api/route/domain/create.go.
use tunnel_manager.Prelude.{
  ◌≤◌, ◌≡◌, refl, ◌⊎◌, inl, inr, none, List, Result, ok, err, Error, arith,
}
use tunnel_manager.Prelude.Text.{Bytes}
use tunnel_manager.Model.{Domain, RouteInput}
use tunnel_manager.Proxy.Table.{lookup}
use tunnel_manager.Service.World.{Entry, Outside, World}
use tunnel_manager.Service.Creation.{draft, build, create_domain}
use tunnel_manager.Service.Revert.{Fails, AllKept}
use tunnel_manager.Service.Created.{Succeeds, Stored, then-Succeeds, build-HasRow}
use tunnel_manager.Service.Drafting.{create_domain-Fails}
use tunnel_manager.Api.{Reply, answer, create_err, domain_reply, CreateDomainRequest, serve_create}

-- The answer is the new domain, whose row is in the database, or an error that left no trace.
pub Creates : World → World × Reply → Type 0
Creates w (w', r) =
    ((d : Domain) × (r ≡ domain_reply 201 d) × Stored d w')
    ⊎ ((400 ≤ r.status) × AllKept w w'.db w'.proxy)

create_domain-Succeeds :
    (o : Outside) (hostname zone_id : Bytes) (inputs : List RouteInput) (w : World)
    → Succeeds Stored (create_domain o hostname zone_id inputs w)
unfolding create_domain
create_domain-Succeeds o hostname zone_id inputs w =
    then-Succeeds Stored (build o) (draft o hostname zone_id inputs w) (λ d v. build-HasRow o d v)

create_err-status : (e : Error) → 400 ≤ (create_err e).status
unfolding create_err
create_err-status e = ground arith

answer-Creates :
    (w : World) (r : World × Result Domain)
    → Succeeds Stored r
    → Fails (λ v. AllKept w v.db v.proxy) r
    → Creates w (answer (domain_reply 201) create_err r)
unfolding Succeeds Fails Creates
answer-Creates w (w', ok d) stored kept = inl (d, refl, stored)
answer-Creates w (w', err e) stored kept = inr (create_err-status e, kept)

-- If the identifier that the service takes for a new domain is none of the proxy's: a request to
-- create a domain is answered with 201 and the new domain, which then has a row in the database, or
-- with an error of the client or the server, and then the database and the proxy's entries are as
-- they were.
pub serve_create-Creates :
    (o : Outside) (bound : Result CreateDomainRequest) (w : World)
    → ((h : List Entry) → lookup (o.uuid h 0) w.proxy.by_domain ≡ none)
    → Creates w (serve_create o bound w)
unfolding serve_create Creates
serve_create-Creates o (err e) w fresh = inr (omega arith, (refl, λ j. refl))
serve_create-Creates o (ok req) w fresh =
    answer-Creates w (create_domain o req.hostname req.zone_id req.routes w)
      (create_domain-Succeeds o req.hostname req.zone_id req.routes w)
      (create_domain-Fails o req.hostname req.zone_id req.routes w fresh)
