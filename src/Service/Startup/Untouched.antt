-- ===== src/Service/Startup/Untouched.antt =====
-- What the starting of processes leaves alone: the proxy, the table of routes, and the identifiers of
-- the domains.
use tunnel_manager.Prelude.{
  ◌≡◌, refl, ◌∙◌, List, [], ◌∷◌, Option, none, some, Result, ok, err, Bool-cases, inl, inr,
}
use tunnel_manager.Prelude.Text.{Bytes, codes}
use tunnel_manager.Model.{Domain}
use tunnel_manager.Repo
use tunnel_manager.Repo.{Db}
use tunnel_manager.Repo.Laws.{has_key-update, has_key-update_bulk}
use tunnel_manager.LogBuf.{Buffer}
use tunnel_manager.Supervisor.{ProcessEvent, start}
use tunnel_manager.Crypto.{decrypt}
use tunnel_manager.Service.World.{
  Call, written, queried, Outside, World, Run, next, ◌>>◌, lift, try, perform, ask, write_db,
}
use tunnel_manager.Service.Operations.{
  publish, repo_get, update_row, update_rows, store_event, with_event, handle_supervisor_event,
  deliver, log_opened_as, log_buffer, start_process, spawn, naming,
}
use tunnel_manager.Service.Startup.{spawn_decrypted, respawn, respawn_all}

pub record Same (w v : World) : Type 0 where
  pub proxy : v.proxy ≡ w.proxy
  pub routes : v.db.routes ≡ w.db.routes
  pub keys : (id : Bytes) → Repo.has_key id v.db.domains ≡ Repo.has_key id w.db.domains

abbrev pub Keeps : {A : Type 0} → Run A → Type 0
Keeps m = (w : World) → Same w (m w).0

same : (w : World) → Same w w
same w = record { proxy = refl; routes = refl; keys = λ i. refl }

Same-trans : (u v w : World) → Same u v → Same v w → Same u w
Same-trans u v w h k = record {
  proxy = k.proxy ∙ h.proxy;
  routes = k.routes ∙ h.routes;
  keys = λ i. k.keys i ∙ h.keys i;
}

pub next-Same :
    {A B : Type 0} (f : A → Run B) (w : World) (r : World × Result A)
    → Same w r.0
    → ((a : A) → Keeps (f a))
    → Same w (next f r).0
unfolding next
next-Same f w (v, ok a) h k = Same-trans w v (f a v).0 h (k a v)
next-Same f w (v, err e) h k = h

perform-Keeps : (o : Outside) (c : Call) → Keeps (perform o c)
unfolding perform ask
perform-Keeps o c w = record { proxy = refl; routes = refl; keys = λ i. refl }

publish-Keeps : Keeps publish
unfolding publish
publish-Keeps w = record { proxy = refl; routes = refl; keys = λ i. refl }

update-routes : (db : Db) (d : Domain) → (Repo.update db d).0.routes ≡ db.routes
unfolding Repo.update
update-routes db d = elim (Bool-cases (Repo.has_key d.id db.domains)) [
  | inl e ↦ rw e
  | inr e ↦ rw e
]

-- A write that changes no routes, between the call of the database and the wake-up.
written-Keeps :
    (o : Outside) (f : Db → Db × Result (Unit {0}))
    → ((db : Db) → (f db).0.routes ≡ db.routes)
    → ((db : Db) (id : Bytes) → Repo.has_key id (f db).0.domains ≡ Repo.has_key id db.domains)
    → Keeps (perform o written >> write_db f >> publish)
written-Keeps o f h k w =
    next-Same _ w _
      (next-Same _ w _ (perform-Keeps o written w)
        (λ _ v. record { proxy = refl; routes = h v.db; keys = λ i. k v.db i }))
      (λ _. publish-Keeps)

pub update_row-Keeps : (o : Outside) (d : Domain) → Keeps (update_row o d)
unfolding update_row
update_row-Keeps o d =
    written-Keeps o (λ db. Repo.update db d) (λ db. update-routes db d)
      (λ db id. has_key-update db d id)

pub update_rows-Keeps : (o : Outside) (ds : List Domain) → Keeps (update_rows o ds)
unfolding update_rows Repo.update_bulk
update_rows-Keeps o [] w = same w
update_rows-Keeps o (d ∷ ds) w =
    written-Keeps o (λ db. (Repo.update_bulk db (d ∷ ds), ok tt)) (λ db. refl)
      (λ db id. has_key-update_bulk db (d ∷ ds) id) w

store_event-Keeps :
    (o : Outside) (ev : ProcessEvent) (got : Result Domain) → Keeps (store_event o ev got)
store_event-Keeps o ev (err e) w = same w
store_event-Keeps o ev (ok d) w =
    next-Same _ w (try (update_row o (with_event d ev)) w) (update_row-Keeps o (with_event d ev) w)
      (λ _. same)

repo_get-Keeps : (o : Outside) (id : Bytes) → Keeps (repo_get o id)
unfolding repo_get
repo_get-Keeps o id w = next-Same _ w _ (perform-Keeps o queried w) (λ _. same)

deliver-Keeps : (o : Outside) (evs : List ProcessEvent) → Keeps (deliver o evs)
unfolding deliver handle_supervisor_event
deliver-Keeps o [] w = same w
deliver-Keeps o (ev ∷ evs) w =
    next-Same _ w _
      (next-Same _ w (try (repo_get o ev.domain_id) w) (repo_get-Keeps o ev.domain_id w)
        (store_event-Keeps o ev))
      (λ _. deliver-Keeps o evs)

log_opened_as-Keeps : (o : Outside) (id : Bytes) (b : Option Buffer) → Keeps (log_opened_as o id b)
unfolding ask
log_opened_as-Keeps o id (some b) w = same w
log_opened_as-Keeps o id none w =
    next-Same _ w _ (record { proxy = refl; routes = refl; keys = λ i. refl })
      (λ contents v. record { proxy = refl; routes = refl; keys = λ i. refl })

start_process-Keeps : (o : Outside) (id : Bytes) → Keeps (start_process o id)
unfolding start_process
start_process-Keeps o id w =
    let outcome = start w.supervisor id (o.new_process w.history id) in
    let w' = record w { supervisor = outcome.0 } in
    let h = next-Same (λ _. lift outcome.1.0) w' _ (deliver-Keeps o outcome.1.1 w') (λ _. same) in
    record { proxy = h.proxy; routes = h.routes; keys = h.keys }

pub spawn-Keeps : (o : Outside) (id : Bytes) → Keeps (spawn o id)
unfolding spawn log_buffer
spawn-Keeps o id w =
    next-Same _ w (naming (codes "open log buffer") (log_buffer o id) w)
      (log_opened_as-Keeps o id (w.logs id) w) (λ _. start_process-Keeps o id)

respawn-Keeps : (o : Outside) (d : Domain) → Keeps (respawn o d)
unfolding respawn
respawn-Keeps o d w = by_token (decrypt o.cipher o.key d.encrypted_tunnel_token)
  where
    by_token : (r : Result Bytes) → Same w (spawn_decrypted o d r w).0
    by_token (err e) = same w
    by_token (ok token) = next-Same _ w (try (spawn o d.id) w) (spawn-Keeps o d.id w) (λ _. same)

pub respawn_all-Keeps : (o : Outside) (ds : List Domain) → Keeps (respawn_all o ds)
unfolding respawn_all
respawn_all-Keeps o [] w = same w
respawn_all-Keeps o (d ∷ ds) w =
    next-Same _ w _ (respawn-Keeps o d w)
      (λ f v. next-Same _ v _ (respawn_all-Keeps o ds v) (λ _. same))
