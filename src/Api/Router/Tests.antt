-- ===== src/Api/Router/Tests.antt =====
-- A request to delete a domain, with a token that nobody has signed, in a cookie.
use tunnel_manager.Prelude.{true, some}
use tunnel_manager.Prelude.Text.{codes}
use tunnel_manager.Auth.Samples.{open_book, service, users, calm}
use tunnel_manager.Middleware.{ApiRequest}
use tunnel_manager.Service.Samples.{outside, world, readers}
use tunnel_manager.Api.Router.{Program, State, delete_domain, serve}
use tunnel_manager.Api.Router.Guarded.{IsSafe, serve-IsSafe}

abbrev program : Program
program = record {
  outside = outside;
  readers = readers;
  lib = open_book;
  service = service;
  surroundings = calm;
  allowed_origin = codes "https://o";
  secure = true;
  checked_at = 2;
  cookie_at = 2;
}

abbrev state : State
state = record { world = world; users = users }

abbrev forged : ApiRequest
forged = record {
  verb = codes "DELETE";
  authorization = codes "";
  origin = codes "https://o";
  cookie_value = some (codes "t");
}

serve-IsSafe_example :
    IsSafe program forged state (serve program (delete_domain (codes "d")) forged state)
serve-IsSafe_example = serve-IsSafe program (delete_domain (codes "d")) forged state
