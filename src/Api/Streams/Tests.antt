-- ===== src/Api/Streams/Tests.antt =====
-- A stream at a concrete input: an update, a heartbeat, and the client leaves.
use tunnel_manager.Prelude.{true, [], ◌∷◌, ok}
use tunnel_manager.Prelude.Integers.{pos}
use tunnel_manager.Pagination.{ListDomainRequest}
use tunnel_manager.Service.Samples.{outside, world, readers}
use tunnel_manager.Api.Streams.{Event, Ready, update, heartbeat, subscribe, serve_stream}
use tunnel_manager.Api.Streams.Subscription.{Streams, serve_stream-Streams}

abbrev request : ListDomainRequest
request = record {
  pagination = record { page = pos 0; page_size = pos 5; cursor = [] };
  status = [];
  hostname = [];
}

abbrev event : Ready → Event
event x = record { meanwhile = λ w. w; ready = x; taken = true }

serve_stream-Streams_example :
    Streams
      (subscribe world).1
      (serve_stream outside readers (ok request) (event update ∷ (event heartbeat ∷ [])) world)
serve_stream-Streams_example =
    serve_stream-Streams outside readers request (event update ∷ (event heartbeat ∷ [])) world
