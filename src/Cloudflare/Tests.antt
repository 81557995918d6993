-- ===== src/Cloudflare/Tests.antt =====
-- The Cloudflare client at concrete inputs: an API that accepts what is put and makes nothing but
-- tunnels without a token.
use tunnel_manager.Prelude.{
  false, ◌≡◌, refl, ◌⊎◌, List, [], ◌∷◌, none, Result, ok, err, Error, external, wrap,
}
use tunnel_manager.Prelude.Text.{Bytes, codes}
use tunnel_manager.Routes.{cloudflare_rules}
use tunnel_manager.Routes.Samples.{hosts, stamp, three, three_routes, three_accepted}
use tunnel_manager.Cloudflare.{
  Api, Request, new_tunnel, get_token, put_configuration, IngressItem, put_ingress_config,
  create_tunnel,
}
use tunnel_manager.Cloudflare.Ingress.{IsIngress, put_ingress_config-IsIngress}
use tunnel_manager.Cloudflare.Tunnel.{create_tunnel-err}

abbrev made : Request → Result Bytes
made (new_tunnel account name) = ok (codes "t")
made _ = err (external (codes "403"))

abbrev api : Api
api = record { pages = λ a. ([], none); made = made; done = λ q. ok tt }

put_ingress_config-IsIngress_example :
    (items : List IngressItem) × ((put_ingress_config api
        (codes "acc")
        (codes "t")
        (codes "h")
        (cloudflare_rules (codes "p") three_routes)).0
      ≡ put_configuration (codes "acc") (codes "t") items ∷ [])
    × IsIngress (codes "p") (codes "h") (codes "o") three_routes items
put_ingress_config-IsIngress_example =
    put_ingress_config-IsIngress hosts stamp three false (three_routes, codes "o") api (codes "acc")
      (codes "t") (codes "h") (codes "p") three_accepted (cc, (cc, (cc, tt)))

create_tunnel-err_example :
    ((d : Error) × (api.made (new_tunnel (codes "acc") (codes "h")) ≡ err d))
    ⊎ ((id : Bytes) × (d : Error) × (api.made (new_tunnel (codes "acc") (codes "h")) ≡ ok id)
        × (api.made (get_token (codes "acc") id) ≡ err d)
        × ((create_tunnel api (codes "acc") (codes "h")).0
            ≡ new_tunnel (codes "acc") (codes "h") ∷ (get_token (codes "acc") id ∷ [])))
unfolding create_tunnel
create_tunnel-err_example =
    create_tunnel-err api (codes "acc") (codes "h")
      (wrap (codes "cloudflare: get tunnel token") (external (codes "403"))) refl
