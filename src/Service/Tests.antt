-- ===== src/Service/Tests.antt =====
-- The theorems on the service at concrete inputs.
use tunnel_manager.Prelude.{◌≡◌, refl, [], ◌∷◌, none}
use tunnel_manager.Prelude.Text.{codes}
use tunnel_manager.Proxy.{new}
use tunnel_manager.Proxy.Table.{lookup}
use tunnel_manager.Service.Samples.{outside, world, api, domain, calm, top, stored}
use tunnel_manager.Service.Operations.{replace_routes_locked, delete_domain}
use tunnel_manager.Service.Deletion.{Clears, delete_domain-Clears}
use tunnel_manager.Service.Startup.{reconcile}
use tunnel_manager.Service.Startup.Reconciling.{Reconciles, reconcile-Reconciles}
use tunnel_manager.Service.Creation.{Draft, build}
use tunnel_manager.Service.Rollback.{Settles, replace_routes_locked-Settles}
use tunnel_manager.Service.Revert.{Fails, IsUndone, build-IsUndone}

abbrev plan : Draft
plan = record {
  id = codes "d";
  hostname = codes "h";
  zone_id = codes "z";
  routes = api ∷ [];
  default_origin = codes "o";
  now = 5;
}

not_there : lookup (codes "d") (new (codes "p")).by_domain ≡ none
unfolding lookup new
not_there = refl

build-IsUndone_example : Fails (IsUndone outside plan world) (build outside plan world)
build-IsUndone_example = build-IsUndone outside plan world not_there

replace_routes_locked-Settles_example :
    Settles calm domain
      (top ∷ [])
      (codes "o")
      stored
      (replace_routes_locked calm domain (api ∷ (top ∷ [])) (top ∷ []) (codes "o") stored)
replace_routes_locked-Settles_example =
    replace_routes_locked-Settles calm domain (api ∷ (top ∷ [])) (top ∷ []) (codes "o") stored

delete_domain-Clears_example : Clears (codes "d") stored (delete_domain calm (codes "d") stored)
delete_domain-Clears_example = delete_domain-Clears calm (codes "d") stored

reconcile-Reconciles_example : Reconciles calm stored (reconcile calm stored)
reconcile-Reconciles_example = reconcile-Reconciles calm stored (tt, tt)
