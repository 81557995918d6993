-- ===== src/Middleware.antt =====
-- internal/pkg/middleware: which requests reach a handler.
pub mod Guard
mod Tests
use tunnel_manager.Prelude.{
  ℕ, Bool, true, false, not, ◌&&◌, ◌||◌, List, [], ◌∷◌, Option, none, some, Result, ok, err, Error,
  if◌then◌else◌,
}
use tunnel_manager.Prelude.Text.{Bytes, codes, text_eq, cut_prefix, contains_byte}

-- What the middleware reads of a request. An absent header is the empty text; `cookie_value` is the
-- value of the cookie `tunnel_manager_token`.
pub record ApiRequest : Type 0 where
  pub verb : Bytes
  pub authorization : Bytes
  pub origin : Bytes
  pub cookie_value : Option Bytes

pub data Source : Type 0 where
  bearer cookie : Source

-- `c.Next()`, with what was set for the handler, or the status that ends the request.
pub data Outcome : Type 0 where
  passed : Bytes → Source → Outcome
  aborted : ℕ → Outcome

abbrev bearer_token : Option Bytes → Option (Bytes × Source)
bearer_token none = none
bearer_token (some token) =
    if text_eq token []
      || (contains_byte b' ' token
          || contains_byte 9 token
          || contains_byte 13 token
          || contains_byte 10 token)
    then none
    else some (token, bearer)

abbrev cookie_token : Option Bytes → Option (Bytes × Source)
cookie_token none = none
cookie_token (some token) = if text_eq token [] then none else some (token, cookie)

unfoldable pub authentication_token : ApiRequest → Option (Bytes × Source)
authentication_token r =
    if not (text_eq r.authorization [])
    then bearer_token (cut_prefix r.authorization (codes "Bearer "))
    else cookie_token r.cookie_value

unfoldable pub safe_method : Bytes → Bool
safe_method m = text_eq m (codes "GET") || text_eq m (codes "HEAD") || text_eq m (codes "OPTIONS")

abbrev pub is_cookie : Source → Bool
is_cookie cookie = true
is_cookie bearer = false

abbrev checked : Bytes → ApiRequest → Source → Result Bytes → Outcome
checked allowed r source (err e) = aborted 401
checked allowed r source (ok username) =
    if is_cookie source
      && not (safe_method r.verb)
      && (text_eq allowed [] || not (text_eq r.origin allowed))
    then aborted 403
    else passed username source

abbrev with_token : (Bytes → Result Bytes) → Bytes → ApiRequest → Option (Bytes × Source) → Outcome
with_token authenticate allowed r none = aborted 401
with_token authenticate allowed r (some (token, source)) =
    checked allowed r source (authenticate token)

-- `allowed` is `cfg.CORSAllowedOrigin`.
unfoldable pub jwt_auth : (Bytes → Result Bytes) → Bytes → ApiRequest → Outcome
unfolding authentication_token safe_method
jwt_auth authenticate allowed r = with_token authenticate allowed r (authentication_token r)

-- `RequireAllowedOrigin`: whether the request goes on.
unfoldable pub require_allowed_origin : Bytes → ApiRequest → Bool
require_allowed_origin allowed r =
    if not (text_eq r.origin []) && not (text_eq r.origin allowed) then false else true

-- `CorsMiddleware`: whether the CORS headers are set, and whether the request goes on.
unfoldable pub cors : Bytes → ApiRequest → Bool × Bool
cors allowed r = (
  not (text_eq allowed []) && text_eq r.origin allowed,
  if text_eq r.verb (codes "OPTIONS") then false else true,
)
