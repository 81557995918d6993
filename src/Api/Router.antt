-- ===== src/Api/Router.antt =====
-- The `Setup` of the routes of internal/application/api/route, and internal/pkg/gin: what a request
-- passes on its way to its handler. Gin chooses the endpoint and binds the request.
pub mod Guarded
mod Tests
use tunnel_manager.Prelude.{ℕ, Bool, true, false, List, Option, none, Result, if◌then◌else◌}
use tunnel_manager.Prelude.Text.{Bytes}
use tunnel_manager.Model.{RouteInput}
use tunnel_manager.Auth.{AuthLibrary, AuthService, Users, Surroundings, authenticate}
use tunnel_manager.Middleware.{
  ApiRequest, Outcome, passed, aborted, jwt_auth, require_allowed_origin, cors,
}
use tunnel_manager.Pagination.{ListDomainRequest}
use tunnel_manager.Service.World.{Outside, World}
use tunnel_manager.Service.Reading.{Readers}
use tunnel_manager.Api.{
  Reply, reply, nothing, CreateDomainRequest, serve_create, serve_delete, serve_get, serve_stop,
  serve_restart, serve_update, serve_replace, serve_list, serve_logs, serve_metrics, serve_zones,
}
use tunnel_manager.Api.Discovery.{serve_discovery}
use tunnel_manager.Api.Sessions.{
  Cookie, WithCookie, LoginRequest, ChangePasswordRequest, serve_login, serve_logout,
  serve_change_password,
}
use tunnel_manager.Api.Streams.{Frame, Event, Streamed, serve_stream, serve_detail}

-- The endpoints, each with its bound request; the text is the parameter `id`. A stream has the
-- events of its connection as well.
pub data Endpoint : Type 0 where
  create_domain : Result CreateDomainRequest → Endpoint
  list_domains : Result ListDomainRequest → Endpoint
  stream_domains : Result ListDomainRequest → List Event → Endpoint
  update_domain : Bytes → Result Bytes → Endpoint
  replace_routes : Bytes → Result (List RouteInput) → Endpoint
  get_domain delete_domain stop_domain restart_domain get_logs get_metrics : Bytes → Endpoint
  stream_detail : Bytes → Bool → Bool → List Event → Endpoint
  list_zones : Endpoint
  log_in : Result LoginRequest → Endpoint
  log_out : Endpoint
  change_password : Result ChangePasswordRequest → Endpoint
  discovery : Endpoint

-- `middleware.JWTAuth`, `middleware.RequireAllowedOrigin`, or neither.
pub data Guard : Type 0 where
  token_guard origin_guard no_guard : Guard

abbrev pub guard_of : Endpoint → Guard
guard_of (log_in _) = origin_guard
guard_of log_out = origin_guard
guard_of discovery = no_guard
guard_of _ = token_guard

-- The parts that the handlers share, and what the surroundings are to one request: the database's
-- error on a lookup of an account, and the times at which the clock is read.
pub record Program : Type 0 where
  pub outside : Outside
  pub readers : Readers
  pub lib : AuthLibrary
  pub service : AuthService
  pub surroundings : Surroundings
  pub allowed_origin : Bytes
  pub secure : Bool
  pub checked_at : ℕ
  pub cookie_at : ℕ

pub record State : Type 0 where
  pub world : World
  pub users : Users

pub record Answer : Type 0 where
  pub answered : Reply
  pub cookie_set : Option Cookie
  pub frames : List Frame

abbrev pub plain : State → World × Reply → State × Answer
plain s (w, r) =
    (record s { world = w }, record { answered = r; cookie_set = none; frames = List.[] })

abbrev pub streamed : State → World × Streamed → State × Answer
streamed s (w, (r, frames)) =
    (record s { world = w }, record { answered = r; cookie_set = none; frames = frames })

abbrev pub with_cookie : State → Users × WithCookie → State × Answer
with_cookie s (users, (r, cookie)) =
    (record s { users = users }, record { answered = r; cookie_set = cookie; frames = List.[] })

-- The handler of an endpoint; the first text is the name that the middleware has set, if it has.
unfoldable pub handle : Program → Endpoint → Bytes → State → State × Answer
handle p (create_domain bound) u s = plain s (serve_create p.outside bound s.world)
handle p (list_domains bound) u s = plain s (serve_list p.outside p.readers bound s.world)
handle p (stream_domains bound events) u s =
    streamed s (serve_stream p.outside p.readers bound events s.world)
handle p (update_domain id bound) u s = plain s (serve_update p.outside id bound s.world)
handle p (replace_routes id bound) u s = plain s (serve_replace p.outside id bound s.world)
handle p (get_domain id) u s = plain s (serve_get p.outside id s.world)
handle p (delete_domain id) u s = plain s (serve_delete p.outside id s.world)
handle p (stop_domain id) u s = plain s (serve_stop p.outside id s.world)
handle p (restart_domain id) u s = plain s (serve_restart p.outside id s.world)
handle p (get_logs id) u s = plain s (serve_logs p.outside id s.world)
handle p (get_metrics id) u s = plain s (serve_metrics p.outside p.readers id s.world)
handle p (stream_detail id first second events) u s =
    streamed s (serve_detail p.outside p.readers id first second events s.world)
handle p list_zones u s = plain s (serve_zones p.outside s.world)
handle p (log_in bound) u s = with_cookie s (
  s.users,
  serve_login p.lib p.service s.users p.surroundings.get_fault p.secure p.surroundings.signed_at
      p.cookie_at bound,
)
handle p log_out u s = with_cookie s (s.users, serve_logout p.secure)
handle p (change_password bound) u s =
    with_cookie s
      (serve_change_password p.lib p.service p.surroundings s.users p.secure p.cookie_at u bound)
handle p discovery u s = plain s (serve_discovery p.outside s.world)

abbrev pub ended : ℕ → State → State × Answer
ended status s =
    (s, record { answered = reply status nothing; cookie_set = none; frames = List.[] })

abbrev pub after_token : Program → Endpoint → State → Outcome → State × Answer
after_token p e s (aborted status) = ended status s
after_token p e s (passed username source) = handle p e username s

-- The token of the request, as `JWTAuth` has it checked.
abbrev pub checked_by : Program → State → Bytes → Result Bytes
checked_by p s token =
    authenticate p.lib p.service s.users p.surroundings.get_fault p.checked_at token

abbrev pub guarded : Program → Endpoint → ApiRequest → State → Guard → State × Answer
guarded p e r s token_guard = after_token p e s (jwt_auth (checked_by p s) p.allowed_origin r)
guarded p e r s origin_guard =
    if require_allowed_origin p.allowed_origin r then handle p e List.[] s else ended 403 s
guarded p e r s no_guard = handle p e List.[] s

-- The CORS middleware stands before all routes, and ends a preflight request.
unfoldable pub serve : Program → Endpoint → ApiRequest → State → State × Answer
unfolding handle
serve p e r s = if (cors p.allowed_origin r).1 then guarded p e r s (guard_of e) else ended 204 s
