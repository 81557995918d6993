-- ===== src/Service/Samples.antt =====
-- An outside that has no fault but a database that refuses its writes, a world with an empty database
-- and an empty proxy, and a domain with a route.
use tunnel_manager.Prelude.{true, false, [], ◌∷◌, none, Result, ok, err, external}
use tunnel_manager.Prelude.Text.{codes, text_eq}
use tunnel_manager.Model.{Domain, DomainRoute, active}
use tunnel_manager.Service.Reading.{Readers}
use tunnel_manager.Hub
use tunnel_manager.Proxy.{NetLibrary, new, commit_domain}
use tunnel_manager.Supervisor.{new_supervisor}
use tunnel_manager.Service.World.{Call, written, Outside, World}

abbrev pub refuse_writes : Call → Result (Unit {0})
refuse_writes written = err (external (codes "disk I/O error"))
refuse_writes _ = ok tt

abbrev pub net : NetLibrary
net = record {
  urls = record {
    parse = λ s. ok (record {
      scheme = codes "http";
      host = s;
      has_user = false;
      path = [];
      raw_path = [];
      raw_query = [];
      fragment = [];
      rest = [];
    });
    string = λ u. u.host;
  };
  split_host_port = λ s. err (external s);
  parse_ip = λ s. none;
  is_loopback = λ s. false;
  equal_fold = text_eq;
  unicode = λ s. s;
}

abbrev pub outside : Outside
outside = record {
  net = net;
  cipher = record {
    new_cipher = λ k. ok tt;
    new_gcm = λ k. ok tt;
    nonce_size = 0;
    seal = λ k n p. p;
    open_seal = λ k n s. ok s;
    encode = λ s. s;
    decode = λ s. ok s;
  };
  key = codes "0123456789abcdef0123456789abcdef";
  ports = record { start = 1; end = 2 };
  fault = λ h c. refuse_writes c;
  zones = λ h. ok [];
  new_tunnel = λ h host. ok (record { tunnel_id = codes "t"; token = codes "k" });
  new_record = λ h z host t. ok (codes "r");
  new_process = λ h id. ok 7;
  log_file = λ h id. ok [];
  random = λ h. ok [];
  clock = λ h. 5;
  uuid = λ h i. i ∷ [];
}

abbrev pub world : World
world = record {
  history = [];
  db = record { domains = []; routes = [] };
  proxy = new (codes "p");
  supervisor = new_supervisor;
  logs = λ id. none;
  hub = Hub.empty;
}

abbrev pub api : DomainRoute
api = record {
  id = codes "1";
  domain_id = codes "d";
  path = codes "/api";
  origin_url = codes "o";
  strip_prefix = true;
  created_at = 5;
  updated_at = 5;
}

abbrev pub domain : Domain
domain = record {
  id = codes "d";
  hostname = codes "h";
  origin_url = codes "o";
  cloudflare_zone_id = codes "z";
  cloudflare_tunnel_id = codes "t";
  dns_record_id = codes "r";
  encrypted_tunnel_token = codes "k";
  status = active;
  metrics_port = 1;
  pid = 7;
  restart_count = 0;
  last_error = [];
  created_at = 0;
  updated_at = 0;
  routes = [];
}

-- Cursors that carry an identifier alone, and tunnels that do not answer.
abbrev pub readers : Readers
readers = record {
  cursors = record {
    marshal = λ d. ok d.id;
    unmarshal = λ s. ok (record { id = s; created_at = 0 });
    encode = λ s. s;
    decode = λ s. ok s;
  };
  sql = record { contains = λ part s. true };
  fetch = λ port. err (external []);
}

-- An outside without a fault, where an active zone is listed.
abbrev pub calm : Outside
calm = record outside {
  fault = λ h c. ok tt;
  zones =
      λ h. ok (record { id = codes "z"; name = codes "example.com"; status = codes "active" } ∷ []);
}

abbrev pub top : DomainRoute
top = record api { id = codes "2"; path = codes "/"; strip_prefix = false }

-- A world whose database and proxy hold a domain and its routes.
abbrev pub stored : World
stored = record world {
  db = record { domains = domain ∷ []; routes = api ∷ (top ∷ []) };
  proxy = (commit_domain net (new (codes "p")) (codes "d") (codes "h") (api ∷ [])).0;
}
