-- ===== src/Model.antt =====
-- The data of internal/model, internal/pkg/constant and internal/pkg/request. Strings are bytes,
-- times are numbers.
use tunnel_manager.Prelude.{ℕ, Bool, true, false, List, Result}
use tunnel_manager.Prelude.Text.{Bytes}

-- internal/pkg/constant/domain_status.go
pub data DomainStatus : Type 0 where
  pending active error stopped : DomainStatus

pub Status-discrete : Discrete DomainStatus
Status-discrete = hlevel

abbrev pub is_active : DomainStatus → Bool
is_active active = true
is_active _ = false

-- internal/model/domain_route.go
pub record DomainRoute : Type 0 where
  pub id : Bytes
  pub domain_id : Bytes
  pub path : Bytes
  pub origin_url : Bytes
  pub strip_prefix : Bool
  pub created_at : ℕ
  pub updated_at : ℕ

-- internal/model/domain.go
pub record Domain : Type 0 where
  pub id : Bytes
  pub hostname : Bytes
  pub origin_url : Bytes
  pub cloudflare_zone_id : Bytes
  pub cloudflare_tunnel_id : Bytes
  pub dns_record_id : Bytes
  pub encrypted_tunnel_token : Bytes
  pub status : DomainStatus
  pub metrics_port : ℕ
  pub pid : ℕ
  pub restart_count : ℕ
  pub last_error : Bytes
  pub created_at : ℕ
  pub updated_at : ℕ
  pub routes : List DomainRoute

-- internal/model/cloudflare.go
pub record CloudflareZone : Type 0 where
  pub id : Bytes
  pub name : Bytes
  pub status : Bytes

-- internal/model/auth.go; the version is an int64 that only counts up.
pub record Auth : Type 0 where
  pub username : Bytes
  pub password : Bytes
  pub token_version : ℕ
  pub created_at : ℕ
  pub updated_at : ℕ

-- internal/pkg/request/domain/routes.go
pub record RouteInput : Type 0 where
  pub path : Bytes
  pub origin_url : Bytes
  pub strip_prefix : Bool

-- internal/pkg/cloudflare/type.go
pub record TunnelInfo : Type 0 where
  pub tunnel_id : Bytes
  pub token : Bytes

pub record IngressRule : Type 0 where
  pub path : Bytes
  pub service : Bytes

-- What the program reads of a parsed URL (package `net/url`); `rest` is what it passes on unread.
pub record Url : Type 0 where
  pub scheme : Bytes
  pub host : Bytes
  pub has_user : Bool
  pub path : Bytes
  pub raw_path : Bytes
  pub raw_query : Bytes
  pub fragment : Bytes
  pub rest : Bytes

-- `url.Parse` and `(*URL).String`.
pub record UrlLibrary : Type 0 where
  pub parse : Bytes → Result Url
  pub string : Url → Bytes
