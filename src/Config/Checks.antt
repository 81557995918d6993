-- ===== src/Config/Checks.antt =====
-- The checks of internal/pkg/config on a configuration that is loaded.
use tunnel_manager.Prelude.{
  ◌≤◌, ◌≡◌, ◌≢◌, refl, ◌⊎◌, inl, inr, Bool, true, false, not, ◌&&◌, [], some, ok, external, wrap,
  refuse, ◌>>=◌, ltb, length, arith, Bool-cases, if◌then◌else◌, Result-cases, Option-cases,
  >>=-eq-ok, refuse-eq-ok, ok-injective,
}
use mathlib.Core.Path.{subst}
use tunnel_manager.Prelude.Text.{Bytes, codes, text_eq, text_eq_iff}
use tunnel_manager.Proxy.{NetLibrary}
use tunnel_manager.Prelude.Integers.{ℤ, pos, ltz}
use tunnel_manager.Config.{
  Environment, ReadLibrary, Config, required, tagged, read_key, read_ttl, check_addr, check_rest,
  check_required, load, week,
}

-- The address of the ingress proxy has a port that is written out and a loopback IP for a host.
pub record IsLoopbackAddr (net : NetLibrary) (addr : Bytes) : Type 0 where
  pub host : Bytes
  pub port : Bytes
  pub ip : Bytes
  pub split : net.split_host_port addr ≡ ok (host, port)
  pub parsed : net.parse_ip host ≡ some ip
  pub has_port : port ≢ []
  pub loopback : net.is_loopback ip ≡ true

pub record IsConfig (net : NetLibrary) (c : Config) : Type 0 where
  pub has_token : c.cloudflare_api_token ≢ []
  pub has_account : c.cloudflare_account_id ≢ []
  pub has_admin : c.admin_username ≢ []
  pub has_password : c.admin_password ≢ []
  pub key_length : 32 ≤ length c.encryption_key
  pub secret_length : 32 ≤ length c.jwt_secret
  pub ttl_positive : ltz (pos 0) c.jwt_ttl ≡ true
  pub ports : ltz c.metrics_port_range_start c.metrics_port_range_end ≡ true
  pub protocol : (c.cloudflared_protocol ≡ codes "http2") ⊎ (c.cloudflared_protocol ≡ codes "quic")
  pub proxy_addr : IsLoopbackAddr net c.ingress_proxy_addr

not-false : (b : Bool) → not b ≡ false → b ≡ true
not-false true h = refl
not-false false h = cc

text_eq-nil : (s : Bytes) → text_eq s [] ≡ false → s ≢ []
text_eq-nil s h e = cc ((text_eq_iff s []).1 e, h)

required-ok :
    (env : Environment) (name : Bytes) → required env name ≡ ok tt → env.get_string name ≢ []
unfolding required
required-ok env name e = text_eq-nil (env.get_string name) (refuse-eq-ok _ _ e)

read_key-ok :
    (lib : ReadLibrary) (env : Environment) (name key : Bytes)
    → read_key lib env name ≡ ok key
    → 32 ≤ length key
unfolding read_key
read_key-ok lib env name key e =
    let (k, _, e₁) = >>=-eq-ok (tagged name (lib.hex_decode (env.get_string name))) _ e in
    let (_, long, e₂) =
      >>=-eq-ok
        (refuse (ltb (length k) 32)
          (wrap name (external (codes "must decode to at least 32 bytes"))))
        _ e₁ in
    let long' = refuse-eq-ok _ _ long in subst (λ x. 32 ≤ length x) (ok-injective e₂) (ground arith)

read_ttl-ok :
    (lib : ReadLibrary) (env : Environment) (ttl : ℤ)
    → read_ttl lib env ≡ ok ttl
    → ltz (pos 0) ttl ≡ true
unfolding read_ttl
read_ttl-ok lib env ttl e =
    let text = env.get_string (codes "JWT_TTL") in
    let parsed = tagged (codes "JWT_TTL must be a valid duration") (lib.parse_duration text) in
    let (t, _, e₁) =
      >>=-eq-ok (if text_eq text [] then ok week else parsed)
        (λ t.
          refuse (not (ltz (pos 0) t)) (external (codes "JWT_TTL must be positive")) >>= λ _. ok t)
        e in
    let (_, positive, e₂) =
      >>=-eq-ok (refuse (not (ltz (pos 0) t)) (external (codes "JWT_TTL must be positive"))) _ e₁ in
    subst (λ x. ltz (pos 0) x ≡ true) (ok-injective e₂)
      (not-false (ltz (pos 0) t) (refuse-eq-ok _ _ positive))

check_addr-ok :
    (net : NetLibrary) (addr : Bytes) → check_addr net addr ≡ ok tt → IsLoopbackAddr net addr
unfolding check_addr
check_addr-ok net addr e = elim (Result-cases (net.split_host_port addr)) [
  | inr (d, failed) ↦ cc (rw failed at e)
  | inl ((host, port), split) ↦
      let (_, has_port, e₁) =
        >>=-eq-ok
          (refuse (text_eq port [])
            (external (codes "INGRESS_PROXY_ADDR must be a loopback IP and port")))
          _ (rw split at e) in
      elim (Option-cases (net.parse_ip host)) [
        | inl missing ↦ cc (rw missing at e₁)
        | inr (ip, parsed) ↦ record {
          host = host;
          port = port;
          ip = ip;
          split = split;
          parsed = parsed;
          has_port = text_eq-nil port (refuse-eq-ok _ _ has_port);
          loopback =
              not-false (net.is_loopback ip)
                (refuse-eq-ok (not (net.is_loopback ip)) _ (rw parsed at e₁));
        }
      ]
]

-- A configuration that is loaded names its account and administrator, has keys of at least 32
-- bytes, a positive lifetime of tokens, a port range that is not empty, one of the two protocols,
-- and a loopback address for the ingress proxy.
pub load-IsConfig :
    (lib : ReadLibrary) (env : Environment) (c : Config) → load lib env ≡ ok c → IsConfig lib.net c
unfolding load check_required check_rest
load-IsConfig lib env c e =
    let (_, named, e₁) = >>=-eq-ok (check_required env) _ e in
    let (key, has_key, e₂) = >>=-eq-ok (read_key lib env (codes "ENCRYPTION_KEY")) _ e₁ in
    let (secret, has_secret, e₃) = >>=-eq-ok (read_key lib env (codes "JWT_SECRET")) _ e₂ in
    let (ttl, has_ttl, e₄) = >>=-eq-ok (read_ttl lib env) _ e₃ in
    let (_, checked, e₅) = >>=-eq-ok (check_rest lib env) _ e₄ in
    let (_, token, n₁) = >>=-eq-ok (required env (codes "CLOUDFLARE_API_TOKEN")) _ named in
    let (_, account, n₂) = >>=-eq-ok (required env (codes "CLOUDFLARE_ACCOUNT_ID")) _ n₁ in
    let (_, admin, password) = >>=-eq-ok (required env (codes "ADMIN_USERNAME")) _ n₂ in
    let start = env.get_int (codes "METRICS_PORT_RANGE_START") in
    let end = env.get_int (codes "METRICS_PORT_RANGE_END") in
    let protocol = env.get_string (codes "CLOUDFLARED_PROTOCOL") in
    let (_, ports, c₁) =
      >>=-eq-ok
        (refuse (not (ltz start end))
          (external (codes "METRICS_PORT_RANGE_END must be greater than METRICS_PORT_RANGE_START")))
        _ checked in
    let (_, known, addr) =
      >>=-eq-ok
        (refuse (not (text_eq protocol (codes "http2")) && not (text_eq protocol (codes "quic")))
          (external (codes "CLOUDFLARED_PROTOCOL must be one of http2 or quic")))
        _ c₁ in
    let ports' = refuse-eq-ok (not (ltz start end)) _ ports in
    let known' =
      refuse-eq-ok (not (text_eq protocol (codes "http2")) && not (text_eq protocol (codes "quic")))
        _ known in
    subst (IsConfig lib.net) (ok-injective e₅) (record {
      has_token = required-ok env (codes "CLOUDFLARE_API_TOKEN") token;
      has_account = required-ok env (codes "CLOUDFLARE_ACCOUNT_ID") account;
      has_admin = required-ok env (codes "ADMIN_USERNAME") admin;
      has_password = required-ok env (codes "ADMIN_PASSWORD") password;
      key_length = read_key-ok lib env (codes "ENCRYPTION_KEY") key has_key;
      secret_length = read_key-ok lib env (codes "JWT_SECRET") secret has_secret;
      ttl_positive = read_ttl-ok lib env ttl has_ttl;
      ports = not-false (ltz start end) ports';
      protocol = either protocol known';
      proxy_addr = check_addr-ok lib.net (env.get_string (codes "INGRESS_PROXY_ADDR")) addr;
    })
  where
    either :
        (p : Bytes)
        → (not (text_eq p (codes "http2")) && not (text_eq p (codes "quic"))) ≡ false
        → (p ≡ codes "http2") ⊎ (p ≡ codes "quic")
    either p h = elim (Bool-cases (text_eq p (codes "http2"))) [
      | inl a ↦ inl ((text_eq_iff p (codes "http2")).0 a)
      | inr a ↦ elim (Bool-cases (text_eq p (codes "quic"))) [
        | inl b ↦ inr ((text_eq_iff p (codes "quic")).0 b)
        | inr b ↦ cc (rw (a, b) at h)
      ]
    ]
