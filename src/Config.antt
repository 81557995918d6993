-- ===== src/Config.antt =====
-- internal/pkg/config/config.go: the settings that the environment gives.
pub mod Checks
mod Tests
use tunnel_manager.Prelude.{
  ℕ, suc, ◌*◌, Bool, true, false, not, ◌&&◌, ◌||◌, List, [], ◌∷◌, Option, none, some, Result, ok,
  err, Error, external, wrap, refuse, ◌>>=◌, ◌>>◌, ltb, length, if◌then◌else◌,
}
use tunnel_manager.Prelude.Integers.{ℤ, pos, negsuc, ltz}
use tunnel_manager.Prelude.Text.{Bytes, codes, text_eq}
use tunnel_manager.Proxy.{NetLibrary}

-- The environment as viper reads it, its defaults included. A port that is not a number reads as 0.
pub record Environment : Type 0 where
  pub get_string : Bytes → Bytes
  pub get_int : Bytes → ℤ
  pub get_bool : Bytes → Bool

-- `encoding/hex`, and `time.ParseDuration` in nanoseconds.
pub record ReadLibrary : Type 0 where
  pub hex_decode : Bytes → Result Bytes
  pub parse_duration : Bytes → Result ℤ
  pub net : NetLibrary

pub record Config : Type 0 where
  pub cloudflare_api_token : Bytes
  pub cloudflare_account_id : Bytes
  pub encryption_key : Bytes
  pub db_path : Bytes
  pub log_dir : Bytes
  pub http_addr : Bytes
  pub metrics_port_range_start : ℤ
  pub metrics_port_range_end : ℤ
  pub cloudflared_binary : Bytes
  pub cloudflared_protocol : Bytes
  pub cors_allowed_origin : Bytes
  pub admin_username : Bytes
  pub admin_password : Bytes
  pub jwt_secret : Bytes
  pub jwt_ttl : ℤ
  pub auth_cookie_secure : Bool
  pub ingress_proxy_addr : Bytes

pub required : Environment → Bytes → Result (Unit {0})
required env name =
    refuse (text_eq (env.get_string name) []) (wrap name (external (codes "is required")))

abbrev pub tagged {ℓ} : {A : Type ℓ} → Bytes → Result A → Result A
tagged m (ok a) = ok a
tagged m (err e) = err (wrap m e)

-- A key in hexadecimal digits, of at least 32 bytes.
pub read_key : ReadLibrary → Environment → Bytes → Result Bytes
read_key lib env name = do
  key ← tagged name (lib.hex_decode (env.get_string name))
  refuse (ltb (length key) 32) (wrap name (external (codes "must decode to at least 32 bytes")))
  ok key

abbrev pub week : ℤ
week = pos (7 * (24 * (3600 * 1000000000)))

pub read_ttl : ReadLibrary → Environment → Result ℤ
read_ttl lib env =
    let text = env.get_string (codes "JWT_TTL") in
    let parsed = tagged (codes "JWT_TTL must be a valid duration") (lib.parse_duration text) in
    (if text_eq text [] then ok week else parsed) >>= λ ttl.
    refuse (not (ltz (pos 0) ttl)) (external (codes "JWT_TTL must be positive")) >>= λ _. ok ttl

-- The address must be an IP on the loopback interface, with a port.
abbrev check_ip : NetLibrary → Option Bytes → Result (Unit {0})
check_ip net none = err (external (codes "INGRESS_PROXY_ADDR must use a loopback IP"))
check_ip net (some ip) =
    refuse (not (net.is_loopback ip)) (external (codes "INGRESS_PROXY_ADDR must use a loopback IP"))

abbrev check_split : NetLibrary → Result (Bytes × Bytes) → Result (Unit {0})
check_split net (err e) = err (external (codes "INGRESS_PROXY_ADDR must be a loopback IP and port"))
check_split net (ok (host, port)) =
    refuse (text_eq port []) (external (codes "INGRESS_PROXY_ADDR must be a loopback IP and port"))
    >> check_ip net (net.parse_ip host)

pub check_addr : NetLibrary → Bytes → Result (Unit {0})
check_addr net addr = check_split net (net.split_host_port addr)

-- The checks from the port range on.
pub check_rest : ReadLibrary → Environment → Result (Unit {0})
unfolding check_addr
check_rest lib env = do
  refuse
      (not (
        ltz (env.get_int (codes "METRICS_PORT_RANGE_START"))
          (env.get_int (codes "METRICS_PORT_RANGE_END"))))
      (external (codes "METRICS_PORT_RANGE_END must be greater than METRICS_PORT_RANGE_START"))
  refuse
      (not (text_eq (env.get_string (codes "CLOUDFLARED_PROTOCOL")) (codes "http2"))
        && not (text_eq (env.get_string (codes "CLOUDFLARED_PROTOCOL")) (codes "quic")))
      (external (codes "CLOUDFLARED_PROTOCOL must be one of http2 or quic"))
  check_addr lib.net (env.get_string (codes "INGRESS_PROXY_ADDR"))

pub check_required : Environment → Result (Unit {0})
unfolding required
check_required env = do
  required env (codes "CLOUDFLARE_API_TOKEN")
  required env (codes "CLOUDFLARE_ACCOUNT_ID")
  required env (codes "ADMIN_USERNAME")
  required env (codes "ADMIN_PASSWORD")

abbrev pub config_of : Environment → Bytes → Bytes → ℤ → Config
config_of env key secret ttl = record {
  cloudflare_api_token = env.get_string (codes "CLOUDFLARE_API_TOKEN");
  cloudflare_account_id = env.get_string (codes "CLOUDFLARE_ACCOUNT_ID");
  encryption_key = key;
  db_path = env.get_string (codes "DB_PATH");
  log_dir = env.get_string (codes "LOG_DIR");
  http_addr = env.get_string (codes "HTTP_ADDR");
  metrics_port_range_start = env.get_int (codes "METRICS_PORT_RANGE_START");
  metrics_port_range_end = env.get_int (codes "METRICS_PORT_RANGE_END");
  cloudflared_binary = env.get_string (codes "CLOUDFLARED_BINARY");
  cloudflared_protocol = env.get_string (codes "CLOUDFLARED_PROTOCOL");
  cors_allowed_origin = env.get_string (codes "CORS_ALLOWED_ORIGIN");
  admin_username = env.get_string (codes "ADMIN_USERNAME");
  admin_password = env.get_string (codes "ADMIN_PASSWORD");
  jwt_secret = secret;
  jwt_ttl = ttl;
  auth_cookie_secure = env.get_bool (codes "AUTH_COOKIE_SECURE");
  ingress_proxy_addr = env.get_string (codes "INGRESS_PROXY_ADDR");
}

-- The messages leave out the values that they quote.
unfoldable pub load : ReadLibrary → Environment → Result Config
unfolding check_required read_key read_ttl check_rest
load lib env = check_required env >>= λ _. read_key lib env (codes "ENCRYPTION_KEY") >>= λ key.
    read_key lib env (codes "JWT_SECRET") >>= λ secret.
    read_ttl lib env >>= λ ttl. check_rest lib env >>= λ _. ok (config_of env key secret ttl)
