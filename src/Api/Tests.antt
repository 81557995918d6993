-- ===== src/Api/Tests.antt =====
-- The answers at concrete requests that succeed: a deletion and a creation.
use tunnel_manager.Prelude.{◌≡◌, refl, false, none, List, [], ◌∷◌, ok, Result}
use tunnel_manager.Prelude.Text.{codes}
use tunnel_manager.Proxy.{new}
use tunnel_manager.Proxy.Table.{lookup}
use tunnel_manager.Service.World.{Entry}
use tunnel_manager.Service.Samples.{world, calm, stored}
use tunnel_manager.Api.{deletion, serve_change, CreateDomainRequest, serve_create}
use tunnel_manager.Api.Creation.{Creates, serve_create-Creates}
use tunnel_manager.Api.Changes.{IsMade, Mirrors, serve_change-Mirrors}

serve_change-Mirrors_example :
    Mirrors
      (IsMade calm (codes "d") deletion)
      stored
      (serve_change calm (codes "d") deletion stored)
serve_change-Mirrors_example = serve_change-Mirrors calm (codes "d") deletion stored

abbrev creation : Result CreateDomainRequest
creation = ok (record {
  hostname = codes "a.example.com";
  zone_id = codes "z";
  routes = record { path = codes "/"; origin_url = codes "o"; strip_prefix = false } ∷ [];
})

calm_identifiers : (h : List Entry) → lookup (calm.uuid h 0) world.proxy.by_domain ≡ none
unfolding lookup new
calm_identifiers h = refl

serve_create-Creates_example : Creates world (serve_create calm creation world)
serve_create-Creates_example = serve_create-Creates calm creation world calm_identifiers
