-- ===== src/Cloudflare/Tunnel.antt =====
-- How `CreateTunnel` can fail.
use tunnel_manager.Prelude.{◌≡◌, ◌⊎◌, inl, inr, [], ◌∷◌, ok, err, Error, Result-cases}
use tunnel_manager.Prelude.Text.{Bytes}
use tunnel_manager.Cloudflare.{Api, new_tunnel, get_token, create_tunnel}

-- If the creation of a tunnel fails, then either nothing was made, or the tunnel was made and its
-- token not read, and then no request was sent after that one, so that the tunnel stays.
pub create_tunnel-err :
    (api : Api) (account name : Bytes) (e : Error)
    → (create_tunnel api account name).1 ≡ err e
    → ((d : Error) × (api.made (new_tunnel account name) ≡ err d))
      ⊎ ((id : Bytes) × (d : Error) × (api.made (new_tunnel account name) ≡ ok id)
          × (api.made (get_token account id) ≡ err d)
          × ((create_tunnel api account name).0
              ≡ new_tunnel account name ∷ (get_token account id ∷ [])))
unfolding create_tunnel
create_tunnel-err api account name e h = elim (Result-cases (api.made (new_tunnel account name))) [
  | inr (d, q) ↦ inl (d, q)
  | inl (id, q) ↦ elim (Result-cases (api.made (get_token account id))) [
    | inr (d, p) ↦ inr (id, d, q, p, rw (q, p))
    | inl (token, p) ↦ let h' : ok _ ≡ err e = rw (q, p) at h in cc
  ]
]
