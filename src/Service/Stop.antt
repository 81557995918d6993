-- ===== src/Service/Stop.antt =====
-- How `StopDomain` of internal/services/domain/stop.go ends.
use tunnel_manager.Prelude.{◌≡◌, refl, sym, ap, ◌∙◌, inl, inr, true, ◌∷◌, Result, ok, err}
use tunnel_manager.Prelude.Text.{Bytes}
use mathlib.Core.Path.{subst}
use tunnel_manager.Model.{Domain, stopped}
use tunnel_manager.Repo
use tunnel_manager.Repo.{Db, row}
use tunnel_manager.Repo.Laws.{update-IsAtomic, get-update, find_domain-id}
use tunnel_manager.Service.World.{
  queried, written, Outside, World, Run, next, try, ask, perform, write_db, lift, succeeded, ◌>>=◌,
}
use tunnel_manager.Service.Operations.{
  publish, repo_get, update_row, stop_process, unless_done_plain, stop_domain,
}

-- What a write of the row `d` comes to, from the database `db`.
pub Stores : Bytes → Domain → Db → World × Result (Unit {0}) → Type 0
Stores id d db (w', ok _) = Repo.get w'.db id ≡ ok (row d)
Stores id d db (w', err e) = w'.db ≡ db

write-Stores :
    (id : Bytes) (d : Domain) (db : Db) (w' : World) (z : Db × Result (Unit {0}))
    → d.id ≡ id
    → Repo.update db d ≡ z
    → Stores id d db (next (λ _. publish) (record w' { db = z.0 }, z.1))
unfolding Stores next publish
write-Stores id d db w' (db', ok _) named e =
    subst (λ i. Repo.get db' i ≡ ok (row d)) named
      (subst (λ (x : Db × Result (Unit {0})). Repo.get x.0 d.id ≡ ok (row d)) e
        (get-update db d (ap (λ (x : Db × Result (Unit {0})). x.1) e)))
write-Stores id d db w' (db', err f) named e = elim (update-IsAtomic db d) [
  | inl done ↦ cc (rw e at done)
  | inr (g, failed) ↦ ap (λ (x : Db × Result (Unit {0})). x.0) (sym e ∙ failed)
]

update_row-Stores :
    (o : Outside) (id : Bytes) (d : Domain) (w : World)
    → d.id ≡ id
    → Stores id d w.db (update_row o d w)
unfolding update_row perform ask next Stores
update_row-Stores o id d w named = by_fault (o.fault w.history written)
  where
    by_fault :
        (r : Result (Unit {0}))
        → Stores id d w.db (
            next
              (λ _. publish)
              (next
                (λ _. write_db (λ db. Repo.update db d))
                (record w { history = (written, succeeded r) ∷ w.history }, r)))
    by_fault (err e) = refl
    by_fault (ok _) =
        write-Stores id d w.db (record w { history = (written, true) ∷ w.history })
          (Repo.update w.db d) named refl

-- What a stop comes to: the row has the status, or the database is as it was.
unfoldable pub Stops : Bytes → Db → World × Result (Unit {0}) → Type 0
Stops id db (w', ok _) = (d : Domain) × (Repo.get w'.db id ≡ ok d) × (d.status ≡ stopped)
Stops id db (w', err e) = w'.db ≡ db

Stores-Stops :
    (id : Bytes) (d : Domain) (db : Db) (r : World × Result (Unit {0}))
    → d.status ≡ stopped
    → Stores id d db r
    → Stops id db r
unfolding Stores Stops
Stores-Stops id d db (w', ok _) e h = (row d, h, e)
Stores-Stops id d db (w', err f) e h = h

lift-Stops :
    (id : Bytes) (db : Db) (w : World) (r : Result (Unit {0})) (f : Unit {0} → Run (Unit {0}))
    → w.db ≡ db
    → Stops id db (f tt w)
    → Stops id db (next f (w, r))
unfolding Stops next
lift-Stops id db w (ok _) f same h = h
lift-Stops id db w (err e) f same h = same

abbrev stopped_row : Domain → Domain
stopped_row d = record d { status = stopped }

abbrev body : Outside → Bytes → Domain → Run (Unit {0})
body o id d = try (stop_process o id) >>= λ outcome.
    lift (unless_done_plain outcome) >>= λ _. update_row o (stopped_row d)

found-Stops :
    (o : Outside) (id : Bytes) (w : World) (z : Result Domain)
    → Repo.get w.db id ≡ z
    → Stops id w.db (next (body o id) (w, z))
unfolding stop_process next Repo.get Stops
found-Stops o id w (err e) missing = refl
found-Stops o id w (ok d) there =
    let t = (stop_process o id w).0 in
    lift-Stops id w.db t (unless_done_plain (stop_process o id w).1)
      (λ _. update_row o (stopped_row d)) refl
      (Stores-Stops id (stopped_row d) w.db (update_row o (stopped_row d) t) refl
        (update_row-Stores o id (stopped_row d) t (find_domain-id id w.db.domains there)))

-- `StopDomain` either succeeds, and the domain's row says that it is stopped, or it fails, and the
-- database is as it was.
pub stop_domain-Stops : (o : Outside) (id : Bytes) (w : World) → Stops id w.db (stop_domain o id w)
unfolding stop_domain repo_get perform ask next Stops
stop_domain-Stops o id w = by_fault (o.fault w.history queried)
  where
    by_fault :
        (r : Result (Unit {0}))
        → Stops id w.db (
            next (body o id) (
              next
                (λ _ v. (v, Repo.get v.db id))
                (record w { history = (queried, succeeded r) ∷ w.history }, r)))
    by_fault (err e) = refl
    by_fault (ok _) =
        found-Stops o id (record w { history = (queried, true) ∷ w.history }) (Repo.get w.db id)
          refl
