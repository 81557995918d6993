-- ===== src/Api/Sessions.antt =====
-- internal/application/api/route/auth and internal/pkg/authcookie: logging in and out, and the change
-- of a password, with the cookie that the browser is to keep.
pub mod Login
mod Tests
use Prim.Native.Nat.{◌/◌}
use tunnel_manager.Prelude.{
  ℕ, ◌-◌, Bool, true, List, [], ◌∷◌, Option, none, some, Result, ok, err, Error, errors_is,
  error_text, invalid_credentials, invalid_password, same_password, ◌||◌, leb, ltb, if◌then◌else◌,
}
use tunnel_manager.Prelude.Integers.{ℤ, pos, negsuc}
use tunnel_manager.Prelude.Text.{Bytes, codes}
use tunnel_manager.Auth.{
  second, AuthLibrary, AuthService, Users, Surroundings, login, change_password,
}
use tunnel_manager.Api.{Body, Reply, reply, nothing, failure, some_token}

-- http.Cookie: strict to its site and hidden from scripts. Times are in nanoseconds.
pub record Cookie : Type 0 where
  pub name : Bytes
  pub value : Bytes
  pub path : Bytes
  pub expires : ℕ
  pub max_age : ℤ
  pub http_only : Bool
  pub secure : Bool
  pub same_site_strict : Bool

abbrev cookie_name : Bytes
cookie_name = codes "tunnel_manager_token"

unfoldable pub cleared : Bool → Cookie
cleared secure = record {
  name = cookie_name;
  value = [];
  path = codes "/api";
  expires = second;
  max_age = negsuc 0;
  http_only = true;
  secure = secure;
  same_site_strict = true;
}

-- The whole seconds that remain, and at least one.
abbrev pub age_of : ℕ → ℕ
age_of remaining = let age = remaining / second in if ltb age 1 then 1 else age

unfoldable pub set_cookie : ℕ → Bytes → ℕ → Bool → Cookie
unfolding cleared
set_cookie now token expires_at secure = if leb expires_at now then cleared secure else record {
  name = cookie_name;
  value = token;
  path = codes "/api";
  expires = expires_at;
  max_age = pos (age_of (expires_at - now));
  http_only = true;
  secure = secure;
  same_site_strict = true;
}

-- An answer, and the cookie that is set with it.
abbrev pub WithCookie : Type 0
WithCookie = Reply × Option Cookie

pub record LoginRequest : Type 0 where
  pub username : Bytes
  pub password : Bytes

pub record ChangePasswordRequest : Type 0 where
  pub current_password : Bytes
  pub new_password : Bytes

abbrev pub bad_request : Error → WithCookie
bad_request e = (reply 400 (failure (error_text e)), none)

-- A token, in the body and in a cookie that is made at `now`.
abbrev pub signed_in : ℕ → Bool → Bytes × ℕ → WithCookie
signed_in now secure (token, expires_at) =
    (reply 200 (some_token token expires_at), some (set_cookie now token expires_at secure))

unfoldable pub login_err : Error → Reply
login_err e =
    if errors_is e invalid_credentials
    then reply 401 (failure (codes "invalid credentials"))
    else reply 500 (failure (error_text e))

abbrev pub login_answer : ℕ → Bool → Result (Bytes × ℕ) → WithCookie
login_answer now secure (ok t) = signed_in now secure t
login_answer now secure (err e) = (login_err e, none)

-- `signed_at` and `now` are the clock's answers to the signing and to the cookie.
unfoldable pub serve_login :
    AuthLibrary
    → AuthService
    → Users
    → Option Error
    → Bool
    → ℕ
    → ℕ
    → Result LoginRequest
    → WithCookie
unfolding login login_err set_cookie
serve_login lib s users fault secure signed_at now (err e) = bad_request e
serve_login lib s users fault secure signed_at now (ok req) =
    login_answer now secure (login lib s users fault req.username req.password signed_at)

unfoldable pub serve_logout : Bool → WithCookie
unfolding cleared
serve_logout secure = (reply 204 nothing, some (cleared secure))

unfoldable pub password_err : Error → Reply
password_err e =
    if errors_is e invalid_credentials
    then reply 401 (failure (codes "invalid credentials"))
    else if errors_is e invalid_password || errors_is e same_password
    then reply 400 (failure (error_text e))
    else reply 500 (failure (codes "internal server error"))

abbrev pub password_answer : ℕ → Bool → Users × Result (Bytes × ℕ) → Users × WithCookie
password_answer now secure (users, ok t) = (users, signed_in now secure t)
password_answer now secure (users, err e) = (users, (password_err e, none))

-- `username` is the name that the middleware has found.
unfoldable pub serve_change_password :
    AuthLibrary
    → AuthService
    → Surroundings
    → Users
    → Bool
    → ℕ
    → Bytes
    → Result ChangePasswordRequest
    → Users × WithCookie
unfolding change_password password_err set_cookie
serve_change_password lib s w users secure now username (err e) = (users, bad_request e)
serve_change_password lib s w users secure now username (ok req) =
    password_answer now secure
      (change_password lib s w users username req.current_password req.new_password)
