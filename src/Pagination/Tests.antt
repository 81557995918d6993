-- ===== src/Pagination/Tests.antt =====
-- The pages at concrete inputs: three domains, two of which are as old as each other, and cursors
-- that carry their data as they are.
use tunnel_manager.Prelude.{ℕ, ◌+◌, ◌≡◌, refl, true, [], ◌∷◌, Result, ok, err, external, arith}
use tunnel_manager.Prelude.Text.{Bytes, codes}
use tunnel_manager.Prelude.Text.Order.{sort, text_lt}
use tunnel_manager.Model.{Domain, active}
use tunnel_manager.Repo.{Db}
use tunnel_manager.Pagination.{
  PaginateData, CursorLibrary, SqlLibrary, rows, matches, keep, key_before,
}
use tunnel_manager.Pagination.Walk.{walk, page_request, Transportable, walk-rows}

abbrev read_back : Bytes → Result PaginateData
read_back [] = err (external [])
read_back (c ∷ i) = ok (record { id = i; created_at = c })

abbrev lib : CursorLibrary
lib = record {
  marshal = λ d. ok (d.created_at ∷ d.id);
  unmarshal = read_back;
  encode = λ s. s;
  decode = λ s. ok s;
}

abbrev sql : SqlLibrary
sql = record { contains = λ part s. true }

abbrev domain : ℕ → ℕ → Domain
domain i t = record {
  id = i ∷ [];
  hostname = codes "a.example.com";
  origin_url = codes "http://127.0.0.1:80";
  cloudflare_zone_id = codes "z";
  cloudflare_tunnel_id = codes "t";
  dns_record_id = codes "r";
  encrypted_tunnel_token = [];
  status = active;
  metrics_port = 20000 + i;
  pid = 0;
  restart_count = 0;
  last_error = [];
  created_at = t;
  updated_at = t;
  routes = [];
}

abbrev db : Db
db = record { domains = domain 3 7 ∷ (domain 2 9 ∷ (domain 1 7 ∷ [])); routes = [] }

abbrev carried : (d : ℕ) (t : ℕ) → Transportable lib (domain d t)
carried d t = record {
  json = t ∷ (d ∷ []);
  marshalled = refl;
  unmarshalled = refl;
  decoded = refl;
  nonempty = refl;
}

walk-rows_example :
    walk lib sql db (page_request 0 [] [] []) 4 ≡ ok (domain 1 7 ∷ (domain 3 7 ∷ (domain 2 9 ∷ [])))
unfolding rows matches keep key_before sort text_lt
walk-rows_example =
    walk-rows lib sql db 0 [] [] 4 ((cc, (cc, tt)), ((cc, tt), (tt, tt)))
      (carried 3 7, (carried 2 9, (carried 1 7, tt))) (omega arith)
