-- ===== src/Api/Updates.antt =====
-- `ReplaceRoutes` and `UpdateOrigin` of internal/services/domain, with the reads that come first.
use tunnel_manager.Prelude.{ℕ, ◌≡◌, refl, sym, ap, ◌∙◌, List, ◌∷◌, Result, ok, err, ok-injective}
use mathlib.Core.Path.{subst}
use tunnel_manager.Prelude.Text.{Bytes}
use tunnel_manager.Model.{Domain, DomainRoute, RouteInput}
use tunnel_manager.Repo
use tunnel_manager.Repo.{Db}
use tunnel_manager.Repo.Laws.{find_domain-id}
use tunnel_manager.Routes.{Stamp, normalize_routes, route_inputs}
use tunnel_manager.Service.World.{queried, Outside, World, Run, next, ask, perform, succeeded}
use tunnel_manager.Service.Operations.{
  stamp_of, normalized, with_origin, repo_get, repo_list_routes, replace_routes_locked,
  update_origin, replace_routes,
}
use tunnel_manager.Service.Rollback.{Settles, replace_routes_locked-Settles}
use tunnel_manager.Service.Deletion.{repo_get-db, repo_list_routes-db}

-- The routes that the inputs come to are those of the domain in the database.
pub record Replaced (o : Outside) (id : Bytes) (inputs : List RouteInput) (db db' : Db)
    : Type 0 where
  pub stamp : Stamp
  pub routes : List DomainRoute
  pub origin : Bytes
  pub accepted : normalize_routes o.net.urls stamp inputs ≡ ok (routes, origin)
  pub now : ℕ
  pub stored : Repo.replace_routes db now id origin routes ≡ (db', ok tt)

-- A change that was done or left the database as it was.
unfoldable pub Ends : {A : Type 0} → (Db → World → Type 0) → World → World × Result A → Type 0
Ends Done w (w', ok a) = Done w.db w'
Ends Done w (w', err e) = w'.db ≡ w.db

module _ (o : Outside) (id : Bytes) (inputs : List RouteInput) where
  abbrev pub Done : Db → World → Type 0
  Done db w' = Replaced o id inputs db w'.db

  Settles-Ends :
      (d : Domain) (stamp : Stamp) (routes : List DomainRoute) (origin : Bytes) (w₀ w : World)
      (r : World × Result Domain)
      → d.id ≡ id
      → w.db ≡ w₀.db
      → normalize_routes o.net.urls stamp inputs ≡ ok (routes, origin)
      → Settles o d routes origin w r
      → Ends Done w₀ r
  unfolding Settles Ends
  Settles-Ends d stamp routes origin w₀ w (w', ok d') same_id same e h = record {
    stamp = stamp;
    routes = routes;
    origin = origin;
    accepted = e;
    now = h.db.0;
    stored =
        subst (λ i. Repo.replace_routes w₀.db h.db.0 i origin routes ≡ (w'.db, ok tt)) same_id
          (subst (λ db. Repo.replace_routes db h.db.0 d.id origin routes ≡ (w'.db, ok tt)) same
            h.db.1);
  }
  Settles-Ends d stamp routes origin w₀ w (w', err e) same_id same q h = h ∙ same

module _ (Done : Db → World → Type 0) (w : World) where
  next-Ends :
      {A B : Type 0} (f : A → Run B) (r : World × Result A)
      → r.0.db ≡ w.db
      → ((a : A) (w' : World) → r ≡ (w', ok a) → w'.db ≡ w.db → Ends Done w (f a w'))
      → Ends Done w (next f r)
  unfolding Ends next
  next-Ends f (w', ok a) same k = k a w' refl same
  next-Ends f (w', err e) same k = same

repo_get-found :
    (o : Outside) (id : Bytes) (w w' : World) (d : Domain)
    → repo_get o id w ≡ (w', ok d)
    → d.id ≡ id
unfolding repo_get perform ask next Repo.get
repo_get-found o id w w' d e = by_fault (o.fault w.history queried) e
  where
    by_fault :
        (r : Result (Unit {0}))
        → next
            (λ _ v. (v, Repo.get v.db id))
            (record w { history = (queried, succeeded r) ∷ w.history }, r)
          ≡ (w', ok d)
        → d.id ≡ id
    by_fault (err f) e = cc
    by_fault (ok _) e = find_domain-id id w.db.domains (ap (λ (x : World × Result Domain). x.1) e)

repo_list_routes-found :
    (o : Outside) (id : Bytes) (w w' : World) (routes : List DomainRoute)
    → repo_list_routes o id w ≡ (w', ok routes)
    → routes ≡ Repo.list_routes w.db id
unfolding repo_list_routes perform ask next
repo_list_routes-found o id w w' routes e = by_fault (o.fault w.history queried) e
  where
    by_fault :
        (r : Result (Unit {0}))
        → next
            (λ _ v. (v, ok (Repo.list_routes v.db id)))
            (record w { history = (queried, succeeded r) ∷ w.history }, r)
          ≡ (w', ok routes)
        → routes ≡ Repo.list_routes w.db id
    by_fault (err f) e = cc
    by_fault (ok _) e = sym (ok-injective (ap (λ (x : World × Result (List DomainRoute)). x.1) e))

normalized-accepted :
    (o : Outside) (id : Bytes) (inputs : List RouteInput) (w w' : World)
    (a : List DomainRoute × Bytes)
    → normalized o id inputs w ≡ (w', ok a)
    → normalize_routes o.net.urls (stamp_of o id w) inputs ≡ ok a
unfolding normalized
normalized-accepted o id inputs w w' a e =
    ap (λ (x : World × Result (List DomainRoute × Bytes)). x.1) e

normalized-db :
    (o : Outside) (id : Bytes) (inputs : List RouteInput) (w : World)
    → (normalized o id inputs w).0.db ≡ w.db
unfolding normalized
normalized-db o id inputs w = refl

-- `ReplaceRoutes` stores the routes of its inputs, or leaves the database as it was.
pub replace_routes-Ends :
    (o : Outside) (id : Bytes) (inputs : List RouteInput) (w : World)
    → Ends (Done o id inputs) w (replace_routes o id inputs w)
unfolding replace_routes
replace_routes-Ends o id inputs w =
    next-Ends _ w _ (normalized o id inputs w) (normalized-db o id inputs w) (λ a w₁ e₁ s₁.
      next-Ends _ w _ (repo_get o id w₁) (repo_get-db id w o w₁ s₁) (λ d w₂ e₂ s₂.
        next-Ends _ w _ (repo_list_routes o id w₂) (repo_list_routes-db id w o w₂ s₂)
          (λ old w₃ e₃ s₃.
            Settles-Ends o id inputs d (stamp_of o id w) a.0 a.1 w w₃ _
              (repo_get-found o id w₁ w₂ d e₂) s₃ (normalized-accepted o id inputs w w₁ a e₁)
              (replace_routes_locked-Settles o d old a.0 a.1 w₃))))

-- `UpdateOrigin` does the same for the stored routes with the new origin in the root route.
pub update_origin-Ends :
    (o : Outside) (id origin : Bytes) (w : World)
    → Ends
        (Done o id (with_origin origin (route_inputs (Repo.list_routes w.db id))))
        w
        (update_origin o id origin w)
unfolding update_origin
update_origin-Ends o id origin w =
    next-Ends _ w _ (repo_get o id w) (repo_get-db id w o w refl) (λ d w₁ e₁ s₁.
      next-Ends _ w _ (repo_list_routes o id w₁) (repo_list_routes-db id w o w₁ s₁) (λ old w₂ e₂ s₂.
        let inputs = with_origin origin (route_inputs old) in
        next-Ends _ w _ (normalized o id inputs w₂) (normalized-db o id inputs w₂ ∙ s₂)
          (λ a w₃ e₃ s₃.
            subst
              (λ l.
                Ends (Done o id (with_origin origin (route_inputs l))) w
                  (replace_routes_locked o d old a.0 a.1 w₃))
              (repo_list_routes-found o id w₁ w₂ old e₂ ∙ ap (λ db. Repo.list_routes db id) s₁)
              (Settles-Ends o id inputs d (stamp_of o id w₂) a.0 a.1 w w₃ _
                (repo_get-found o id w w₁ d e₁) s₃ (normalized-accepted o id inputs w₂ w₃ a e₃)
                (replace_routes_locked-Settles o d old a.0 a.1 w₃)))))
