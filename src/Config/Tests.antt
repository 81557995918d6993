-- ===== src/Config/Tests.antt =====
-- A configuration that is loaded. The libraries here read every text as it is.
use tunnel_manager.Prelude.{◌≡◌, refl, true, false, [], some, ok, length, if◌then◌else◌}
use tunnel_manager.Prelude.Text.{Bytes, codes, text_eq}
use tunnel_manager.Proxy.{NetLibrary}
use tunnel_manager.Prelude.Integers.{pos}
use tunnel_manager.Config.{
  Environment, ReadLibrary, required, check_required, read_key, read_ttl, check_addr, check_rest,
  config_of, load, week,
}
use tunnel_manager.Config.Checks.{IsConfig, load-IsConfig}

abbrev net : NetLibrary
net = record {
  urls = record {
    parse = λ s. ok (record {
      scheme = codes "http";
      host = s;
      has_user = false;
      path = [];
      raw_path = [];
      raw_query = [];
      fragment = [];
      rest = [];
    });
    string = λ u. u.host;
  };
  split_host_port = λ s. ok (s, codes "1");
  parse_ip = λ s. some s;
  is_loopback = λ s. true;
  equal_fold = text_eq;
  unicode = λ s. s;
}

abbrev lib : ReadLibrary
lib = record { hex_decode = λ s. ok s; parse_duration = λ s. ok (pos (length s)); net = net }

abbrev env : Environment
env = record {
  get_string = λ name.
      if text_eq name (codes "CLOUDFLARED_PROTOCOL")
      then codes "quic"
      else if text_eq name (codes "JWT_TTL")
      then []
      else codes "0123456789abcdef0123456789abcdef";
  get_int = λ name. if text_eq name (codes "METRICS_PORT_RANGE_END") then pos 2 else pos 1;
  get_bool = λ name. true;
}

abbrev text : Bytes
text = codes "0123456789abcdef0123456789abcdef"

loaded : load lib env ≡ ok (config_of env text text week)
unfolding load required check_required read_key read_ttl check_addr check_rest text_eq
loaded = refl

load-IsConfig_example : IsConfig net (config_of env text text week)
load-IsConfig_example = load-IsConfig lib env (config_of env text text week) loaded
