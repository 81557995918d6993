-- ===== src/Service/Reading.antt =====
-- internal/services/domain: list.go, and the logs and metrics of service.go, which change nothing but
-- the subscribers of a log buffer.
use tunnel_manager.Prelude.{
  ℕ, Bool, true, false, List, [], map, Option, none, some, Result, ok, err, external, leb,
  if◌then◌else◌,
}
use tunnel_manager.Prelude.Text.{Bytes, codes, text_eq}
use tunnel_manager.Model.{Domain, DomainRoute}
use tunnel_manager.Repo.{list_routes_by_domain_ids}
use tunnel_manager.LogBuf.{Buffer, snapshot_and_subscribe, lines_of}
use tunnel_manager.Pagination
use tunnel_manager.Pagination.{CursorLibrary, SqlLibrary, ListDomainRequest}
use tunnel_manager.Service.World.{
  queried, Outside, Run, ◌>>=◌, ◌>>◌, return, lift, read, perform, wrap_err,
}
use tunnel_manager.Service.Operations.{repo_get, log_buffer, naming, no_rows}

-- What the reads use beyond the outside: the cursors, SQLite, and the answer of a tunnel's metrics
-- endpoint on a port, its status and its body.
pub record Readers : Type 0 where
  pub cursors : CursorLibrary
  pub sql : SqlLibrary
  pub fetch : ℕ → Result (ℕ × Result Bytes)

abbrev pub with_routes : (Bytes → List DomainRoute) → Domain → Domain
with_routes routes d = record d { routes = routes d.id }

abbrev domain_id_of : Domain → Bytes
domain_id_of d = d.id

abbrev pub add_routes : Outside → List Domain → Bytes → Bool → Run (List Domain × Bytes)
add_routes o domains cursor true = return (domains, cursor)
add_routes o domains cursor false =
    perform o queried
    >> read (λ w. (
      map (with_routes (list_routes_by_domain_ids w.db (map domain_id_of domains))) domains,
      cursor,
    ))

unfoldable pub list_domains : Outside → Readers → ListDomainRequest → Run (List Domain × Bytes)
list_domains o r req =
    (perform o queried >> λ w. (w, Pagination.list_domains r.cursors r.sql w.db req))
    >>= λ (domains, cursor). add_routes o domains cursor (no_rows domains)

abbrev pub lines_or_none : Option Buffer → List Bytes
lines_or_none none = []
lines_or_none (some b) = lines_of b

unfoldable pub logs : Outside → Bytes → Run (List Bytes)
unfolding repo_get
logs o id = repo_get o id >>= λ _. read (λ w. lines_or_none (w.logs id))

-- A subscription to the buffer of the domain; `log_buffer` has seen to it that there is one.
abbrev pub subscribed : Bytes → Option Buffer → Run (List Bytes × ℕ)
subscribed id none w = (w, err (external (codes "unreachable")))
subscribed id (some b) w =
    let (b', answer) = snapshot_and_subscribe b in
    (record w { logs = λ j. if text_eq id j then some b' else w.logs j }, ok answer)

unfoldable pub subscribe_logs : Outside → Bytes → Run (List Bytes × ℕ)
unfolding repo_get log_buffer
subscribe_logs o id = repo_get o id >>= λ _.
    naming (codes "service: open log buffer") (log_buffer o id) >>= λ _.
    λ w. subscribed id (w.logs id) w

abbrev pub body_of : ℕ × Result Bytes → Result Bytes
body_of (status, body) =
    if leb 400 status
    then err (external (codes "service: metrics endpoint returned status"))
    else wrap_err (codes "service: read metrics") body

-- A request for that address can always be made.
abbrev pub fetched : Result (ℕ × Result Bytes) → Result Bytes
fetched (err e) = wrap_err (codes "service: fetch metrics") (err e)
fetched (ok answer) = body_of answer

unfoldable pub metrics : Outside → Readers → Bytes → Run Bytes
unfolding repo_get
metrics o r id = repo_get o id >>= λ d. lift (fetched (r.fetch d.metrics_port))

-- `write` is the result of writing to the client.
unfoldable pub proxy_metrics : Outside → Readers → Result (Unit {0}) → Bytes → Run Bytes
unfolding metrics
proxy_metrics o r write id = metrics o r id >>= λ text. lift write >> return text
