-- ===== src/Api/Router/Guarded.antt =====
-- What a request without an accepted token can do.
use tunnel_manager.Prelude.{
  ◌≡◌, refl, ◌⊎◌, inl, inr, ◌∙◌, [], ◌∷◌, Result, ok, err, Error, Bool-cases,
}
use tunnel_manager.Prelude.Text.{Bytes}
use tunnel_manager.Middleware.{
  ApiRequest, Source, Outcome, passed, aborted, jwt_auth, require_allowed_origin, cors,
}
use tunnel_manager.Middleware.Guard.{Admits, jwt_auth-Admits}
use tunnel_manager.Service.World.{
  World, Outside, read, ◌>>◌, next, perform, ask, queried, succeeded,
}
use tunnel_manager.Api.{Reply, answer}
use tunnel_manager.Api.Discovery.{discovery, serve_discovery}
use tunnel_manager.Api.Router.{
  Endpoint, create_domain, list_domains, stream_domains, update_domain, replace_routes, get_domain,
  delete_domain, stop_domain, restart_domain, get_logs, get_metrics, stream_detail, list_zones,
  log_in, log_out, change_password, Guard, token_guard, origin_guard, no_guard, guard_of, Program,
  State, Answer, handle, ended, after_token, checked_by, guarded, serve,
}
use tunnel_manager.Api.Router

-- The database of the domains and the accounts are as they were.
pub record Untouched (s t : State) : Type 0 where
  pub db : t.world.db ≡ s.world.db
  pub users : t.users ≡ s.users

-- Whose request it was: the name, and where the token came from.
pub record IsAdmitted (p : Program) (r : ApiRequest) (s : State) : Type 0 where
  pub username : Bytes
  pub source : Source
  pub admits : Admits (checked_by p s) p.allowed_origin r username source

pub IsSafe : Program → ApiRequest → State → State × Answer → Type 0
IsSafe p r s (t, a) = Untouched s t ⊎ IsAdmitted p r s

module _ (p : Program) (e : Endpoint) (r : ApiRequest) (s : State) where
  token-IsSafe :
      (o : Outcome)
      → jwt_auth (checked_by p s) p.allowed_origin r ≡ o
      → IsSafe p r s (after_token p e s o)
  unfolding IsSafe
  token-IsSafe (aborted status) q = inl (record { db = refl; users = refl })
  token-IsSafe (passed username source) q = inr (record {
    username = username;
    source = source;
    admits = jwt_auth-Admits (checked_by p s) p.allowed_origin r username source q;
  })

  guarded-IsSafe :
      (g : Guard)
      → (g ≡ token_guard) ⊎ Untouched s (handle p e [] s).0
      → IsSafe p r s (guarded p e r s g)
  unfolding IsSafe
  guarded-IsSafe token_guard h = token-IsSafe (jwt_auth (checked_by p s) p.allowed_origin r) refl
  guarded-IsSafe origin_guard (inl q) = cc
  guarded-IsSafe origin_guard (inr u) =
      elim (Bool-cases (require_allowed_origin p.allowed_origin r)) [
        | inl own ↦ rw own (inl u)
        | inr other ↦ rw other (inl (record { db = refl; users = refl }))
      ]
  guarded-IsSafe no_guard (inl q) = cc
  guarded-IsSafe no_guard (inr u) = inl u

answer-db :
    {A : Type 0} (done : A → Reply) (failed : Error → Reply) (z : World × Result A)
    → (answer done failed z).0.db ≡ z.0.db
answer-db done failed (w, ok a) = refl
answer-db done failed (w, err e) = refl

queried-db :
    {A : Type 0} (o : Outside) (f : World → A) (w : World)
    → ((perform o queried >> read f) w).0.db ≡ w.db
unfolding perform ask next
queried-db o f w = by_fault (o.fault w.history queried)
  where
    by_fault :
        (r : Result (Unit {0}))
        → (next (λ _. read f) (record w { history = (queried, succeeded r) ∷ w.history }, r)).0.db
          ≡ w.db
    by_fault (ok _) = refl
    by_fault (err e) = refl

discovery-db : (o : Outside) (w : World) → (serve_discovery o w).0.db ≡ w.db
unfolding serve_discovery discovery
discovery-db o w = answer-db _ _ (discovery o w) ∙ queried-db o _ w

open-Untouched :
    (p : Program) (e : Endpoint) (s : State)
    → (guard_of e ≡ token_guard) ⊎ Untouched s (handle p e [] s).0
unfolding handle
open-Untouched p (log_in bound) s = inr (record { db = refl; users = refl })
open-Untouched p log_out s = inr (record { db = refl; users = refl })
open-Untouched p Router.discovery s =
    inr (record { db = discovery-db p.outside s.world; users = refl })
open-Untouched p (create_domain b) s = inl refl
open-Untouched p (list_domains b) s = inl refl
open-Untouched p (stream_domains b es) s = inl refl
open-Untouched p (update_domain id b) s = inl refl
open-Untouched p (replace_routes id b) s = inl refl
open-Untouched p (get_domain id) s = inl refl
open-Untouched p (delete_domain id) s = inl refl
open-Untouched p (stop_domain id) s = inl refl
open-Untouched p (restart_domain id) s = inl refl
open-Untouched p (get_logs id) s = inl refl
open-Untouched p (get_metrics id) s = inl refl
open-Untouched p (stream_detail id f g es) s = inl refl
open-Untouched p list_zones s = inl refl
open-Untouched p (change_password b) s = inl refl

-- Whatever a request asks for, the domains in the database and the accounts are as they were after
-- it, or it has a token that is accepted, and, if this came in a cookie and the method is none of
-- GET, HEAD and OPTIONS, the allowed origin, which is set then.
pub serve-IsSafe :
    (p : Program) (e : Endpoint) (r : ApiRequest) (s : State) → IsSafe p r s (serve p e r s)
unfolding serve IsSafe
serve-IsSafe p e r s = elim (Bool-cases (cors p.allowed_origin r).1) [
  | inl goes_on ↦ rw goes_on (guarded-IsSafe p e r s (guard_of e) (open-Untouched p e s))
  | inr preflight ↦ rw preflight (inl (record { db = refl; users = refl }))
]
