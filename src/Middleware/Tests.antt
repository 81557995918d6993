-- ===== src/Middleware/Tests.antt =====
-- A request with a cookie that passes.
use tunnel_manager.Prelude.{◌≡◌, refl, ok, some, Result}
use tunnel_manager.Prelude.Text.{Bytes, codes, text_eq}
use tunnel_manager.Middleware.{
  ApiRequest, cookie, passed, authentication_token, safe_method, jwt_auth,
}

abbrev echo : Bytes → Result Bytes
echo token = ok token

abbrev posted : ApiRequest
posted = record {
  verb = codes "POST";
  authorization = codes "";
  origin = codes "o";
  cookie_value = some (codes "t");
}

posted_passes : jwt_auth echo (codes "o") posted ≡ passed (codes "t") cookie
unfolding jwt_auth authentication_token safe_method text_eq
posted_passes = refl
