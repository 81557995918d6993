-- ===== src/Repo.antt =====
-- internal/pkg/repo/domain: the two tables, and the queries as functions on them. That the database
-- itself can fail is modelled where the queries are used.
pub mod Laws
use tunnel_manager.Prelude.{
  ℕ, ◌+◌, ltb, leb, Bool, true, false, not, ◌&&◌, ◌||◌, List, [], ◌∷◌, ◌++◌, map, Option, none,
  some, Result, ok, err, Error, sentinel, external, not_found, ◌==◌, if◌then◌else◌,
}
use tunnel_manager.Prelude.Text.{Bytes, codes, text_eq}
use tunnel_manager.Prelude.Text.Order.{text_lt, sort}
use tunnel_manager.Model.{DomainRoute, Domain}

-- A row of `domains` has no routes of its own: the field is not a column.
pub record Db : Type 0 where
  pub domains : List Domain
  pub routes : List DomainRoute

abbrev pub row : Domain → Domain
row d = record d { routes = [] }

pub find_domain : Bytes → List Domain → Result Domain
find_domain id [] = err (sentinel not_found)
find_domain id (d ∷ l) = let later = find_domain id l in if text_eq d.id id then ok d else later

pub find_hostname : Bytes → List Domain → Result Domain
find_hostname h [] = err (sentinel not_found)
find_hostname h (d ∷ l) =
    let later = find_hostname h l in if text_eq d.hostname h then ok d else later

unfoldable pub get : Db → Bytes → Result Domain
unfolding find_domain
get db id = find_domain id db.domains

unfoldable pub get_by_hostname : Db → Bytes → Result Domain
unfolding find_hostname
get_by_hostname db hostname = find_hostname hostname db.domains

pub routes_of : Bytes → List DomainRoute → List DomainRoute
routes_of id [] = []
routes_of id (r ∷ l) =
    let later = routes_of id l in if text_eq r.domain_id id then r ∷ later else later

pub routes_not_of : Bytes → List DomainRoute → List DomainRoute
routes_not_of id [] = []
routes_not_of id (r ∷ l) =
    let later = routes_not_of id l in if text_eq r.domain_id id then later else r ∷ later

-- SQLite's `LENGTH` counts the characters of a text: the bytes that continue none.
pub char_length : Bytes → ℕ
char_length [] = 0
char_length (c ∷ s) = let n = char_length s in if leb 128 c && ltb c 192 then n else n + 1

-- `LENGTH(path) DESC, path ASC`.
pub sql_before : DomainRoute → DomainRoute → Bool
unfolding char_length
sql_before a b =
    if ltb (char_length b.path) (char_length a.path)
    then true
    else if ltb (char_length a.path) (char_length b.path)
    then false
    else text_lt a.path b.path

unfoldable pub list_routes : Db → Bytes → List DomainRoute
unfolding routes_of sql_before
list_routes db id = sort sql_before (routes_of id db.routes)

abbrev pub listed_id : Bytes → List Bytes → Bool
listed_id id [] = false
listed_id id (i ∷ is) = text_eq i id || listed_id id is

-- The map that it returns, as a function: a domain that is not asked for has no routes.
unfoldable pub list_routes_by_domain_ids : Db → List Bytes → Bytes → List DomainRoute
unfolding list_routes
list_routes_by_domain_ids db ids id = if listed_id id ids then list_routes db id else []

pub has_key : Bytes → List Domain → Bool
has_key id [] = false
has_key id (d ∷ l) = text_eq d.id id || has_key id l

pub has_hostname : Bytes → List Domain → Bool
has_hostname h [] = false
has_hostname h (d ∷ l) = text_eq d.hostname h || has_hostname h l

-- The transaction of `Create`: both inserts, or neither. The constraints on the routes, whose
-- identifiers are new and whose paths are distinct, are not tested.
unfoldable pub create : Db → Domain → Db × Result (Unit {0})
unfolding has_key has_hostname
create db d =
    if has_key d.id db.domains || has_hostname d.hostname db.domains
    then (db, err (external (codes "constraint failed: UNIQUE constraint failed")))
    else (record { domains = row d ∷ db.domains; routes = d.routes ++ db.routes }, ok tt)

pub set_row : Domain → List Domain → List Domain
set_row d [] = []
set_row d (e ∷ l) = (if text_eq e.id d.id then row d else e) ∷ set_row d l

-- `WherePK`: no row is an error. A hostname is never changed, so that its constraint is not tested.
unfoldable pub update : Db → Domain → Db × Result (Unit {0})
unfolding has_key set_row
update db d =
    if not (has_key d.id db.domains)
    then (db, err (sentinel not_found))
    else (record db { domains = set_row d db.domains }, ok tt)

pub set_rows : List Domain → List Domain → List Domain
unfolding set_row
set_rows [] l = l
set_rows (d ∷ ds) l = set_rows ds (set_row d l)

unfoldable pub update_bulk : Db → List Domain → Db
unfolding set_rows
update_bulk db ds = record db { domains = set_rows ds db.domains }

pub drop_row : Bytes → List Domain → List Domain
drop_row id [] = []
drop_row id (d ∷ l) = let later = drop_row id l in if text_eq d.id id then later else d ∷ later

-- The foreign key of the routes deletes them with their domain.
unfoldable pub delete : Db → Bytes → Db × Result (Unit {0})
unfolding has_key drop_row routes_not_of
delete db id =
    if not (has_key id db.domains)
    then (db, err (sentinel not_found))
    else (record { domains = drop_row id db.domains; routes = routes_not_of id db.routes }, ok tt)

pub set_origin : Bytes → Bytes → ℕ → List Domain → List Domain
set_origin id origin now [] = []
set_origin id origin now (d ∷ l) =
    (if text_eq d.id id then record d { origin_url = origin; updated_at = now } else d)
    ∷ set_origin id origin now l

-- The transaction of `ReplaceRoutes`; `now` is CURRENT_TIMESTAMP.
unfoldable pub replace_routes : Db → ℕ → Bytes → Bytes → List DomainRoute → Db × Result (Unit {0})
unfolding has_key set_origin routes_not_of
replace_routes db now id origin routes =
    if not (has_key id db.domains) then (db, err (sentinel not_found)) else (
      record {
        domains = set_origin id origin now db.domains;
        routes = routes ++ routes_not_of id db.routes;
      },
      ok tt,
    )

pub list_taken_ports : List Domain → ℕ → Bool
list_taken_ports [] port = false
list_taken_ports (d ∷ l) port = d.metrics_port == port || list_taken_ports l port
