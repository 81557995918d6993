-- ===== src/Api.antt =====
-- internal/application/api/route/domain and internal/application/api/common: the handlers of the
-- domain routes, from the bound request to the answer. Gin, with the binding of a request, is an
-- argument: `bound` is the request or the binding's error.
pub mod Updates
pub mod Changes
pub mod Creation
pub mod Sessions
pub mod Discovery
pub mod Streams
pub mod Router
mod Tests
use tunnel_manager.Prelude.{
  ℕ, Bool, true, false, List, Result, ok, err, Error, errors_is, not_found, invalid_routes,
  cloudflare_unavailable, error_text, if◌then◌else◌,
}
use tunnel_manager.Prelude.Text.{Bytes, codes}
use tunnel_manager.Model.{Domain, RouteInput, CloudflareZone}
use tunnel_manager.Pagination.{ListDomainRequest}
use tunnel_manager.Service.World.{Outside, World, Run}
use tunnel_manager.Service.Operations.{
  get_domain, delete_domain, stop_domain, restart_domain, update_origin, replace_routes,
}
use tunnel_manager.Service.Creation.{create_domain, list_cloudflare_zones}
use tunnel_manager.Service.Reading.{Readers, list_domains, logs, proxy_metrics}

-- internal/pkg/response: a target of the Prometheus discovery, with its labels.
pub record TargetsMetrics : Type 0 where
  pub targets : List Bytes
  pub env : Bytes
  pub domain : Bytes
  pub metrics_path : Bytes

-- What an answer carries.
pub data Body : Type 0 where
  nothing : Body
  failure : Bytes → Body
  one_domain : Domain → Body
  some_domains : List Domain → Bytes → Body
  some_lines : List Bytes → Body
  some_text : Bytes → Body
  some_zones : List CloudflareZone → Body
  some_token : Bytes → ℕ → Body
  some_targets : List TargetsMetrics → Body

pub record Reply : Type 0 where
  pub status : ℕ
  pub body : Body

abbrev pub reply : ℕ → Body → Reply
reply status body = record { status = status; body = body }

-- The end of a handler: `err` is written if the call failed.
abbrev pub answer : {A : Type 0} → (A → Reply) → (Error → Reply) → World × Result A → World × Reply
answer done failed (w, ok a) = (w, done a)
answer done failed (w, err e) = (w, failed e)

-- `if err := c.ShouldBindJSON(&req); err != nil`, in front of the rest of a handler.
abbrev pub bind : {A : Type 0} → Result A → (A → World → World × Reply) → World → World × Reply
bind (ok req) handler w = handler req w
bind (err e) handler w = (w, reply 400 (failure (error_text e)))

unfoldable pub write_get_err : Error → Reply
write_get_err e =
    if errors_is e not_found
    then reply 404 (failure (codes "domain not found"))
    else reply 500 (failure (error_text e))

abbrev pub no_content : Unit {0} → Reply
no_content _ = reply 204 nothing

abbrev pub domain_reply : ℕ → Domain → Reply
domain_reply status d = reply status (one_domain d)

pub record CreateDomainRequest : Type 0 where
  pub hostname : Bytes
  pub zone_id : Bytes
  pub routes : List RouteInput

unfoldable pub create_err : Error → Reply
create_err e =
    if errors_is e cloudflare_unavailable
    then reply 502 (failure (codes "Cloudflare unavailable"))
    else reply 400 (failure (error_text e))

unfoldable pub serve_create : Outside → Result CreateDomainRequest → World → World × Reply
unfolding create_err
serve_create o bound = bind bound (λ req w.
    answer (domain_reply 201) create_err (create_domain o req.hostname req.zone_id req.routes w))

unfoldable pub serve_delete : Outside → Bytes → World → World × Reply
unfolding write_get_err
serve_delete o id w = answer no_content write_get_err (delete_domain o id w)

unfoldable pub serve_get : Outside → Bytes → World → World × Reply
unfolding write_get_err
serve_get o id w = answer (domain_reply 200) write_get_err (get_domain o id w)

unfoldable pub serve_stop : Outside → Bytes → World → World × Reply
unfolding write_get_err
serve_stop o id w = answer no_content write_get_err (stop_domain o id w)

unfoldable pub serve_restart : Outside → Bytes → World → World × Reply
unfolding write_get_err
serve_restart o id w = answer no_content write_get_err (restart_domain o id w)

-- The bound request of an update is its origin.
unfoldable pub serve_update : Outside → Bytes → Result Bytes → World → World × Reply
unfolding write_get_err
serve_update o id bound =
    bind bound (λ origin w. answer (domain_reply 200) write_get_err (update_origin o id origin w))

unfoldable pub replace_err : Error → Reply
replace_err e =
    if errors_is e invalid_routes
    then reply 400 (failure (error_text e))
    else if errors_is e cloudflare_unavailable
    then reply 502 (failure (codes "Cloudflare unavailable"))
    else if errors_is e not_found
    then reply 404 (failure (codes "domain not found"))
    else reply 500 (failure (codes "internal server error"))

-- The bound request is the list of routes.
unfoldable pub serve_replace : Outside → Bytes → Result (List RouteInput) → World → World × Reply
unfolding replace_err
serve_replace o id bound =
    bind bound (λ inputs w. answer (domain_reply 200) replace_err (replace_routes o id inputs w))

-- The requests for one domain that change the database in one step, or not at all.
pub data Change : Type 0 where
  deletion stop_request : Change
  routes_request : Result (List RouteInput) → Change
  origin_request : Result Bytes → Change

unfoldable pub serve_change : Outside → Bytes → Change → World → World × Reply
unfolding serve_delete serve_stop serve_replace serve_update
serve_change o id deletion = serve_delete o id
serve_change o id stop_request = serve_stop o id
serve_change o id (routes_request bound) = serve_replace o id bound
serve_change o id (origin_request bound) = serve_update o id bound

abbrev pub listed : List Domain × Bytes → Reply
listed (domains, cursor) = reply 200 (some_domains domains cursor)

unfoldable pub serve_list : Outside → Readers → Result ListDomainRequest → World → World × Reply
serve_list o r bound =
    bind bound
      (λ req w. answer listed (λ e. reply 500 (failure (error_text e))) (list_domains o r req w))

unfoldable pub serve_logs : Outside → Bytes → World → World × Reply
unfolding write_get_err
serve_logs o id w = answer (λ l. reply 200 (some_lines l)) write_get_err (logs o id w)

-- For a client that takes what is written to it.
unfoldable pub serve_metrics : Outside → Readers → Bytes → World → World × Reply
unfolding write_get_err
serve_metrics o r id w =
    answer (λ t. reply 200 (some_text t)) write_get_err (proxy_metrics o r (ok tt) id w)

unfoldable pub serve_zones : Outside → World → World × Reply
serve_zones o w =
    answer (λ zones. reply 200 (some_zones zones))
      (λ _. reply 502 (failure (codes "Cloudflare unavailable"))) (list_cloudflare_zones o w)
