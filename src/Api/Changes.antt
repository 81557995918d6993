-- ===== src/Api/Changes.antt =====
-- The answers to the requests that change a domain, against what they do to the database.
use tunnel_manager.Prelude.{◌≤◌, ◌<◌, ◌≡◌, refl, ◌⊎◌, inl, inr, Result, ok, err, Error, arith}
use tunnel_manager.Prelude.Text.{Bytes}
use tunnel_manager.Model.{Domain, stopped}
use tunnel_manager.Repo
use tunnel_manager.Repo.{Db}
use tunnel_manager.Repo.Laws.{IsGone}
use tunnel_manager.Routes.{route_inputs}
use tunnel_manager.Service.World.{Outside, World}
use tunnel_manager.Service.Operations.{
  with_origin, delete_domain, stop_domain, update_origin, replace_routes,
}
use tunnel_manager.Service.Stop.{Stops, stop_domain-Stops}
use tunnel_manager.Service.Deletion.{IsRemoved, Clears, delete_domain-Clears}
use tunnel_manager.Api.{
  Reply, answer, write_get_err, replace_err, no_content, domain_reply, serve_delete, serve_stop,
  serve_update, serve_replace, Change, deletion, stop_request, routes_request, origin_request,
  serve_change,
}
use tunnel_manager.Api.Updates.{Ends, Done, Replaced, replace_routes-Ends, update_origin-Ends}

-- What a change has done, if it was done.
pub IsMade : Outside → Bytes → Change → Db → World → Type 0
IsMade o id deletion db w' = IsGone w'.db id × IsRemoved id w'.proxy
IsMade o id stop_request db w' = (d : Domain) × (Repo.get w'.db id ≡ ok d) × (d.status ≡ stopped)
IsMade o id (routes_request (ok inputs)) db w' = Replaced o id inputs db w'.db
IsMade o id (origin_request (ok origin)) db w' =
    Replaced o id (with_origin origin (route_inputs (Repo.list_routes db id))) db w'.db
IsMade o id (routes_request (err e)) db w' = ⊥
IsMade o id (origin_request (err e)) db w' = ⊥

-- Success is answered for a change that was made, an error for one that left the database alone.
pub Mirrors : (Db → World → Type 0) → World → World × Reply → Type 0
Mirrors Done w (w', r) = ((r.status < 300) × Done w.db w') ⊎ ((400 ≤ r.status) × (w'.db ≡ w.db))

answer-Mirrors :
    {A : Type 0} (Done : Db → World → Type 0) (w : World) (done : A → Reply)
    (failed : Error → Reply) (r : World × Result A)
    → ((a : A) → (done a).status < 300)
    → ((e : Error) → 400 ≤ (failed e).status)
    → Ends Done w r
    → Mirrors Done w (answer done failed r)
unfolding Ends Mirrors
answer-Mirrors Done w done failed (w', ok a) h k made = inl (h a, made)
answer-Mirrors Done w done failed (w', err e) h k same = inr (k e, same)

write_get_err-status : (e : Error) → 400 ≤ (write_get_err e).status
unfolding write_get_err
write_get_err-status e = ground arith

replace_err-status : (e : Error) → 400 ≤ (replace_err e).status
unfolding replace_err
replace_err-status e = ground arith

Stops-Ends :
    (o : Outside) (id : Bytes) (w : World) (r : World × Result (Unit {0}))
    → Stops id w.db r
    → Ends (IsMade o id stop_request) w r
unfolding Stops Ends IsMade
Stops-Ends o id w (w', ok _) h = h
Stops-Ends o id w (w', err e) h = h

Clears-Ends :
    (o : Outside) (id : Bytes) (w : World) (r : World × Result (Unit {0}))
    → Clears id w r
    → Ends (IsMade o id deletion) w r
unfolding Clears Ends IsMade
Clears-Ends o id w (w', ok _) h = h
Clears-Ends o id w (w', err e) h = h

Done-Ends :
    (o : Outside) (id origin : Bytes) (w : World) (r : World × Result Domain)
    → Ends (Done o id (with_origin origin (route_inputs (Repo.list_routes w.db id)))) w r
    → Ends (IsMade o id (origin_request (ok origin))) w r
unfolding Ends IsMade
Done-Ends o id origin w (w', ok d) h = h
Done-Ends o id origin w (w', err e) h = h

-- A request to delete or stop a domain, or to replace its routes or its origin, is answered with a
-- success only if that is what has happened: the domain is gone from the database and the proxy,
-- which serves no request by a route of it, its row says that it is stopped, or the stored routes and the origin are those that the request's
-- routes come to. Any other answer is an error of the client or the server, and the database is as
-- it was.
pub serve_change-Mirrors :
    (o : Outside) (id : Bytes) (c : Change) (w : World)
    → Mirrors (IsMade o id c) w (serve_change o id c w)
unfolding serve_change serve_delete serve_stop serve_replace serve_update Mirrors IsMade
serve_change-Mirrors o id deletion w =
    answer-Mirrors (IsMade o id deletion) w no_content write_get_err (delete_domain o id w)
      (λ _. omega arith) write_get_err-status (Clears-Ends o id w _ (delete_domain-Clears o id w))
serve_change-Mirrors o id stop_request w =
    answer-Mirrors (IsMade o id stop_request) w no_content write_get_err (stop_domain o id w)
      (λ _. omega arith) write_get_err-status (Stops-Ends o id w _ (stop_domain-Stops o id w))
serve_change-Mirrors o id (routes_request (err e)) w = inr (omega arith, refl)
serve_change-Mirrors o id (routes_request (ok inputs)) w =
    answer-Mirrors (IsMade o id (routes_request (ok inputs))) w (domain_reply 200) replace_err
      (replace_routes o id inputs w) (λ _. omega arith) replace_err-status
      (replace_routes-Ends o id inputs w)
serve_change-Mirrors o id (origin_request (err e)) w = inr (omega arith, refl)
serve_change-Mirrors o id (origin_request (ok origin)) w =
    answer-Mirrors (IsMade o id (origin_request (ok origin))) w (domain_reply 200) write_get_err
      (update_origin o id origin w) (λ _. omega arith) write_get_err-status
      (Done-Ends o id origin w _ (update_origin-Ends o id origin w))
