-- ===== src/Pagination.antt =====
-- internal/pkg/repo/scopes/pagination.go, internal/pkg/common/paginate.go and the lists of
-- internal/pkg/repo/domain/list.go: one page of the domains, and the cursor to the next.

pub mod Keys
pub mod Walk
mod Tests
use Prim.Native.Nat.{◌-◌, ◌*◌}
use tunnel_manager.Prelude.{
  ℕ, zero, suc, Bool, true, false, ◌&&◌, ◌||◌, not, List, [], ◌∷◌, Option, none, some, Result, ok,
  err, ◌>>=◌, ltb, ◌==◌, if◌then◌else◌, length, take, drop,
}
use tunnel_manager.Prelude.Integers.{ℤ, pos, negsuc, signed64}
use tunnel_manager.Prelude.Text.{Bytes, codes, text_eq}
use tunnel_manager.Prelude.Text.Order.{text_lt, sort}
use tunnel_manager.Model.{DomainStatus, pending, active, error, stopped, Domain}
use tunnel_manager.Repo.{Db}

-- internal/pkg/common/paginate.go
pub record Pagination : Type 0 where
  pub page : ℤ
  pub page_size : ℤ
  pub cursor : Bytes

pub record PaginateData : Type 0 where
  pub id : Bytes
  pub created_at : ℕ

-- The packages `encoding/json`, on the data of a cursor, and `encoding/base64`.
pub record CursorLibrary : Type 0 where
  pub marshal : PaginateData → Result Bytes
  pub unmarshal : Bytes → Result PaginateData
  pub encode : Bytes → Bytes
  pub decode : Bytes → Result Bytes

-- The clauses that `Paginate` adds to a query: a row to start after, an offset and a limit.
pub record Clauses : Type 0 where
  pub after : Option PaginateData
  pub offset : ℤ
  pub limit : ℕ

abbrev pub no_clause : Clauses
no_clause = record { after = none; offset = pos 0; limit = 0 }

abbrev pub is_empty : Bytes → Bool
is_empty [] = true
is_empty (c ∷ s) = false

unfoldable pub decode_cursor : CursorLibrary → Bytes → Result PaginateData
decode_cursor lib cursor =
    if is_empty cursor
    then ok (record { id = []; created_at = 0 })
    else lib.decode cursor >>= λ decoded. lib.unmarshal decoded

unfoldable pub encode_cursor : CursorLibrary → Bytes → ℕ → Result Bytes
encode_cursor lib id created_at =
    lib.marshal (record { id = id; created_at = created_at }) >>= λ json. ok (lib.encode json)

-- `(p.Page - 1) * p.PageSize`, where both are positive.
abbrev pub offset_of : ℤ → ℕ → ℤ
offset_of (pos (suc page)) (suc n) = signed64 (page * suc n)
offset_of _ _ = pos 0

-- A cursor that does not decode leaves the query as it was, without a limit.
unfoldable pub paginate : CursorLibrary → Pagination → Clauses
unfolding decode_cursor
paginate lib p = elim p.page_size [
  | negsuc _ ↦ no_clause
  | pos size ↦
      if is_empty p.cursor
      then record { after = none; offset = offset_of p.page size; limit = size }
      else elim (decode_cursor lib p.cursor) [
        | err _ ↦ no_clause
        | ok c ↦ record { after = some c; offset = pos 0; limit = size }
      ]
]

-- The order of the rows, `created_at ASC, id ASC`, on the columns that a cursor carries.
unfoldable pub key_before : PaginateData → PaginateData → Bool
key_before a b =
    ltb a.created_at b.created_at || (a.created_at == b.created_at && text_lt a.id b.id)

abbrev pub key : Domain → PaginateData
key d = record { id = d.id; created_at = d.created_at }

abbrev pub row_before : Domain → Domain → Bool
row_before a b = key_before (key a) (key b)

-- The rows that a WHERE clause keeps.
pub keep : (Domain → Bool) → List Domain → List Domain
keep test [] = []
keep test (d ∷ l) = let later = keep test l in if test d then d ∷ later else later

abbrev pub starts_after : Option PaginateData → Domain → Bool
starts_after none d = true
starts_after (some c) d = key_before c (key d)

-- A negative offset counts as 0.
abbrev pub skip : ℤ → List Domain → List Domain
skip (pos n) l = drop n l
skip (negsuc n) l = l

abbrev pub limited : ℕ → List Domain → List Domain
limited zero l = l
limited (suc n) l = take (suc n) l

-- internal/pkg/request/domain/list.go
pub record ListDomainRequest : Type 0 where
  pub pagination : Pagination
  pub status : Bytes
  pub hostname : Bytes

-- What the query needs of SQLite: `hostname LIKE '%' || text || '%'`.
pub record SqlLibrary : Type 0 where
  pub contains : Bytes → Bytes → Bool

-- internal/pkg/constant/domain_status.go
pub status_text : DomainStatus → Bytes
status_text pending = codes "pending"
status_text active = codes "active"
status_text error = codes "error"
status_text stopped = codes "stopped"

unfoldable pub matches : SqlLibrary → ListDomainRequest → Domain → Bool
unfolding status_text
matches sql req d =
    (is_empty req.status || text_eq (status_text d.status) req.status)
    && (is_empty req.hostname || sql.contains req.hostname d.hostname)

unfoldable pub rows : SqlLibrary → Db → ListDomainRequest → List Domain
unfolding matches keep
rows sql db req = keep (matches sql req) (sort row_before db.domains)

abbrev pub last_of : Domain → List Domain → Domain
last_of d [] = d
last_of d (e ∷ l) = last_of e l

-- A full page has a cursor to the next: that of its last row.
unfoldable pub next_cursor : CursorLibrary → ℤ → List Domain → Result Bytes
unfolding encode_cursor
next_cursor lib (pos (suc n)) (d ∷ l) =
    if length (d ∷ l) == suc n
    then encode_cursor lib (last_of d l).id (last_of d l).created_at
    else ok []
next_cursor lib _ _ = ok []

unfoldable pub list_domains :
    CursorLibrary → SqlLibrary → Db → ListDomainRequest → Result (List Domain × Bytes)
unfolding rows keep paginate next_cursor
list_domains lib sql db req =
    let clauses = paginate lib req.pagination in
    let found = keep (starts_after clauses.after) (rows sql db req) in
    let domains = limited clauses.limit (skip clauses.offset found) in
    next_cursor lib req.pagination.page_size domains >>= λ cursor. ok (domains, cursor)

pub one_of : List DomainStatus → Domain → Bool
unfolding status_text
one_of [] d = false
one_of (s ∷ l) d = text_eq (status_text d.status) (status_text s) || one_of l d

-- No status asked for means every domain.
unfoldable pub list_all : Db → List DomainStatus → List Domain
unfolding keep one_of
list_all db [] = sort row_before db.domains
list_all db (s ∷ l) = keep (one_of (s ∷ l)) (sort row_before db.domains)
