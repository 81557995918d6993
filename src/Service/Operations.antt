-- ===== src/Service/Operations.antt =====
-- internal/services/domain: get.go, update.go, delete.go, stop.go, restart.go, and what they share.
-- Each body is modelled as it runs when no other operation comes between. The bodies of update.go and
-- delete.go hold the lock of their domain; those of stop.go and restart.go, and
-- `HandleSupervisorEvent`, do not, so that in the program another operation may come between their calls.
use tunnel_manager.Prelude.{
  ℕ, ◌+◌, Bool, true, false, not, List, [], ◌∷◌, Option, none, some, Result, ok, err, Error, detail,
  sentinel, errors_is, cloudflare_unavailable, process_done, if◌then◌else◌, error_text,
}
use tunnel_manager.Prelude.Text.{Bytes, codes, text_eq}
use tunnel_manager.Model.{DomainRoute, Domain, RouteInput, stopped}
use tunnel_manager.Repo
use tunnel_manager.Hub
use tunnel_manager.LogBuf
use tunnel_manager.Proxy.{prepare_domain, commit_domain, remove_domain, url}
use tunnel_manager.Crypto.{decrypt}
use tunnel_manager.Routes.{Stamp, root, normalize_routes, route_inputs, cloudflare_rules}
use tunnel_manager.Supervisor.{ProcessEvent, is_running, start, stop}
use tunnel_manager.Service.World.{
  tunnel_deleted, ingress_put, record_deleted, queried, written, signalled, log_opened, Outside,
  World, Run, ◌>>=◌, ◌>>◌, return, lift, try, wrap_err, read, modify, ask, perform, write_db,
  with_proxy,
}

unfoldable pub publish : Run (Unit {0})
publish = modify (λ w. record w { hub = Hub.publish w.hub })

unfoldable pub repo_get : Outside → Bytes → Run Domain
repo_get o id = perform o queried >> λ w. (w, Repo.get w.db id)

unfoldable pub repo_list_routes : Outside → Bytes → Run (List DomainRoute)
repo_list_routes o id = perform o queried >> λ w. (w, ok (Repo.list_routes w.db id))

unfoldable pub create_row : Outside → Domain → Run (Unit {0})
unfolding publish
create_row o d = perform o written >> write_db (λ db. Repo.create db d) >> publish

unfoldable pub update_row : Outside → Domain → Run (Unit {0})
unfolding publish
update_row o d = perform o written >> write_db (λ db. Repo.update db d) >> publish

abbrev pub no_rows : List Domain → Bool
no_rows [] = true
no_rows (d ∷ ds) = false

unfoldable pub update_rows : Outside → List Domain → Run (Unit {0})
unfolding publish
update_rows o ds =
    if no_rows ds
    then return tt
    else perform o written >> write_db (λ db. (Repo.update_bulk db ds, ok tt)) >> publish

unfoldable pub delete_row : Outside → Bytes → Run (Unit {0})
unfolding publish
delete_row o id = perform o written >> write_db (λ db. Repo.delete db id) >> publish

-- The wrapping of an error with a message, over a run.
abbrev pub naming : {A : Type 0} → Bytes → Run A → Run A
naming m f w = ((f w).0, wrap_err m (f w).1)

unfoldable pub get_domain : Outside → Bytes → Run Domain
unfolding repo_get repo_list_routes
get_domain o id =
    repo_get o id >>= λ d. repo_list_routes o id >>= λ routes. return (record d { routes = routes })

-- `s.cf.PutIngressConfig` with the rules of the routes.
unfoldable pub put_ingress : Outside → Domain → List DomainRoute → Run (Unit {0})
put_ingress o d routes w =
    perform o
      (ingress_put d.cloudflare_tunnel_id d.hostname (cloudflare_rules (url w.proxy) routes)) w

abbrev pub roll_back_proxy : Outside → Domain → List DomainRoute → Run (Unit {0})
roll_back_proxy o d routes =
    try (with_proxy (λ p. commit_domain o.net p d.id d.hostname routes)) >>= λ _. return tt

abbrev pub updated_at : ℕ → List DomainRoute → ℕ
updated_at now [] = now
updated_at now (r ∷ rs) = r.updated_at

-- The end of `replaceRoutesLocked`, after both writes.
unfoldable pub commit_routes : Outside → Domain → List DomainRoute → Bytes → Run Domain
unfolding publish
commit_routes o d routes origin =
    naming (codes "service: commit ingress proxy")
      (with_proxy (λ p. commit_domain o.net p d.id d.hostname routes))
    >>= λ _. publish >>= λ _. return (record d {
      origin_url = origin;
      updated_at = updated_at d.updated_at routes;
      routes = routes;
    })

-- `s.repo.ReplaceRoutes`.
unfoldable pub persist_routes : Outside → Domain → List DomainRoute → Bytes → Run (Unit {0})
persist_routes o d routes origin w =
    (perform o written
        >> write_db (λ db. Repo.replace_routes db (o.clock w.history) d.id origin routes))
      w

abbrev pub unpersisted :
    Outside → Domain → List DomainRoute → Error → Result (Unit {0}) → Run Domain
unpersisted o d old_routes e (ok _) =
    roll_back_proxy o d old_routes >> λ w. (w, wrap_err (codes "service: persist routes") (err e))
unpersisted o d old_routes e (err _) = λ w. (w, wrap_err (codes "service: persist routes") (err e))

-- The two writes may fail: `put` and `saved` are their results.
abbrev pub after_persist :
    Outside → Domain → List DomainRoute → List DomainRoute → Bytes → Result (Unit {0}) → Run Domain
after_persist o d old_routes routes origin (ok _) = commit_routes o d routes origin
after_persist o d old_routes routes origin (err e) =
    try (put_ingress o d old_routes) >>= λ rolled_back. unpersisted o d old_routes e rolled_back

abbrev pub after_put :
    Outside → Domain → List DomainRoute → List DomainRoute → Bytes → Result (Unit {0}) → Run Domain
after_put o d old_routes routes origin (ok _) = try (persist_routes o d routes origin) >>= λ saved.
    after_persist o d old_routes routes origin saved
after_put o d old_routes routes origin (err e) =
    roll_back_proxy o d old_routes
    >> lift (err (detail (sentinel cloudflare_unavailable) (codes "update ingress config")))

unfoldable pub replace_routes_locked :
    Outside → Domain → List DomainRoute → List DomainRoute → Bytes → Run Domain
unfolding put_ingress persist_routes commit_routes
replace_routes_locked o d old_routes routes origin =
    naming (codes "service: prepare ingress proxy")
      (with_proxy (λ p. prepare_domain o.net p d.id d.hostname old_routes routes))
    >>= λ _. try (put_ingress o d routes) >>= λ put. after_put o d old_routes routes origin put

-- The identifiers of the routes are the calls of `uuid.NewString` from the second on.
abbrev pub stamp_of : Outside → Bytes → World → Stamp
stamp_of o id w = record {
  domain_id = id;
  now = o.clock w.history;
  new_id = λ i. o.uuid w.history (i + 1);
}

unfoldable pub normalized : Outside → Bytes → List RouteInput → Run (List DomainRoute × Bytes)
normalized o id inputs w = (w, normalize_routes o.net.urls (stamp_of o id w) inputs)

pub with_origin : Bytes → List RouteInput → List RouteInput
with_origin origin [] = []
with_origin origin (i ∷ is) =
    (if text_eq i.path root then record i { origin_url = origin } else i) ∷ with_origin origin is

unfoldable pub update_origin : Outside → Bytes → Bytes → Run Domain
unfolding repo_get repo_list_routes with_origin normalized replace_routes_locked
update_origin o id origin = repo_get o id >>= λ d. repo_list_routes o id >>= λ old_routes.
    normalized o id (with_origin origin (route_inputs old_routes)) >>= λ (routes, default_origin).
    replace_routes_locked o d old_routes routes default_origin

unfoldable pub replace_routes : Outside → Bytes → List RouteInput → Run Domain
unfolding repo_get repo_list_routes normalized replace_routes_locked
replace_routes o id inputs = normalized o id inputs >>= λ (routes, default_origin).
    repo_get o id >>= λ d. repo_list_routes o id >>= λ old_routes.
    replace_routes_locked o d old_routes routes default_origin

-- `s.sup.Stop`: the answer of the signal, if it comes to one, is no entry of the history.
unfoldable pub stop_process : Outside → Bytes → Run (Unit {0})
stop_process o id w =
    let signal = o.fault w.history (signalled id) in
    (record w { supervisor = (stop w.supervisor id signal).0 }, (stop w.supervisor id signal).1)

abbrev pub stop_if : Outside → Bytes → Bool → Run (Result (Unit {0}))
stop_if o id true = try (stop_process o id)
stop_if o id false = return (ok tt)

-- A stop that ends well, or with an error other than that the process is done.
abbrev pub unless_done : Bytes → Result (Unit {0}) → Result (Unit {0})
unless_done m (ok _) = ok tt
unless_done m (err e) = if not (errors_is e process_done) then wrap_err m (err e) else ok tt

unfoldable pub close_log : Outside → Bytes → Run (Unit {0})
close_log o id w = (record w { logs = λ j. if text_eq id j then none else w.logs j }, ok tt)

abbrev pub unless_deleted : Outside → Domain → List DomainRoute → Result (Unit {0}) → Run (Unit {0})
unless_deleted o d routes (ok _) = close_log o d.id
unless_deleted o d routes (err e) = roll_back_proxy o d routes >> lift (err e)

-- The failures of Cloudflare are logged, and the rest goes on. The log buffer that is closed is
-- not reachable afterwards.
unfoldable pub delete_domain : Outside → Bytes → Run (Unit {0})
unfolding repo_get repo_list_routes stop_process delete_row close_log
delete_domain o id = repo_get o id >>= λ d. repo_list_routes o id >>= λ routes.
    read (λ w. is_running w.supervisor id) >>= λ running. stop_if o id running >>= λ outcome.
    lift (unless_done (codes "service: stop process") outcome) >>= λ _.
    try (perform o (record_deleted d.cloudflare_zone_id d.dns_record_id)) >>= λ _.
    try (perform o (tunnel_deleted d.cloudflare_tunnel_id)) >>= λ _.
    modify (λ w. record w { proxy = remove_domain w.proxy id }) >>= λ _.
    try (delete_row o id) >>= λ deleted. unless_deleted o d routes deleted

abbrev pub unless_done_plain : Result (Unit {0}) → Result (Unit {0})
unless_done_plain (ok _) = ok tt
unless_done_plain (err e) = if not (errors_is e process_done) then err e else ok tt

unfoldable pub stop_domain : Outside → Bytes → Run (Unit {0})
unfolding repo_get stop_process update_row
stop_domain o id = repo_get o id >>= λ d. try (stop_process o id) >>= λ outcome.
    lift (unless_done_plain outcome) >>= λ _. update_row o (record d { status = stopped })

-- `HandleSupervisorEvent`: an unknown domain is passed over, and so is a failing write.
abbrev pub with_event : Domain → ProcessEvent → Domain
with_event d ev = record d {
  status = ev.status;
  pid = ev.pid;
  restart_count = ev.restart_count;
  last_error = elim ev.cause [ none ↦ d.last_error | some e ↦ error_text e ];
}

abbrev pub store_event : Outside → ProcessEvent → Result Domain → Run (Unit {0})
store_event o ev (err e) = return tt
store_event o ev (ok d) = try (update_row o (with_event d ev)) >>= λ _. return tt

unfoldable pub handle_supervisor_event : Outside → ProcessEvent → Run (Unit {0})
unfolding repo_get update_row
handle_supervisor_event o ev = try (repo_get o ev.domain_id) >>= λ got. store_event o ev got

unfoldable pub deliver : Outside → List ProcessEvent → Run (Unit {0})
unfolding handle_supervisor_event
deliver o [] = return tt
deliver o (ev ∷ evs) = handle_supervisor_event o ev >> deliver o evs

-- `logBuffer`: the buffer of the domain, opened if there is none.
abbrev pub log_opened_as : Outside → Bytes → Option LogBuf.Buffer → Run (Unit {0})
log_opened_as o id (some b) = return tt
log_opened_as o id none = ask (log_opened id) (λ h. o.log_file h id) >>= λ contents. modify (λ w.
    record w {
      logs = λ j. if text_eq id j then some (LogBuf.new_buffer contents 500) else w.logs j;
    })

unfoldable pub log_buffer : Outside → Bytes → Run (Unit {0})
log_buffer o id w = log_opened_as o id (w.logs id) w

-- `s.sup.Start`: its events reach the handler before it returns.
unfoldable pub start_process : Outside → Bytes → Run (Unit {0})
unfolding deliver
start_process o id w =
    let outcome = start w.supervisor id (o.new_process w.history id) in
    (deliver o outcome.1.1 >> lift outcome.1.0) (record w { supervisor = outcome.0 })

unfoldable pub spawn : Outside → Bytes → Run (Unit {0})
unfolding log_buffer start_process
spawn o id = naming (codes "open log buffer") (log_buffer o id) >>= λ _. start_process o id

unfoldable pub restart_domain : Outside → Bytes → Run (Unit {0})
unfolding repo_get update_row spawn
restart_domain o id = repo_get o id >>= λ d.
    naming (codes "service: decrypt token") (lift (decrypt o.cipher o.key d.encrypted_tunnel_token))
    >>= λ _. update_row o (record d { restart_count = 0; last_error = [] }) >>= λ _. spawn o id
