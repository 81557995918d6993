-- ===== src/Pagination/Walk.antt =====
-- A client that follows the cursors of internal/pkg/repo/domain/list.go to the end.
use tunnel_manager.Prelude.{
  ℕ, zero, suc, ◌<◌, ◌≤◌, ◌≡◌, refl, sym, ap, ◌∙◌, inl, inr, Bool, true, false, List, [], ◌∷◌, ◌++◌,
  Option, none, some, Result, ok, err, external, ◌>>=◌, length, take, drop, length-drop, All,
  All-drop, Bool-cases, arith, ◌==◌, if◌then◌else◌,
}
use mathlib.Core.Path.{subst}
use mathlib.Core.List.{append_assoc}
use tunnel_manager.Prelude.Integers.{pos}
use tunnel_manager.Prelude.Text.{Bytes, codes}
use tunnel_manager.Prelude.Text.Order.{sort, All-sort, length-sort}
use tunnel_manager.Prelude.Strict.{Strict, Distinct}
use tunnel_manager.Model.{Domain}
use tunnel_manager.Repo.{Db}
use tunnel_manager.Pagination.{
  PaginateData, CursorLibrary, is_empty, decode_cursor, encode_cursor, paginate, key, row_before,
  keep, starts_after, SqlLibrary, ListDomainRequest, matches, rows, last_of, next_cursor,
  list_domains,
}
use tunnel_manager.Pagination.Keys.{OtherId, rows-Strict, keep-starts_after, All-keep}

-- The client: asks for the next page until a page comes without a cursor.
unfoldable pub walk : CursorLibrary → SqlLibrary → Db → ListDomainRequest → ℕ → Result (List Domain)
walk lib sql db req zero = err (external (codes "the pages do not end"))
walk lib sql db req (suc fuel) = list_domains lib sql db req >>= λ (page, next).
    if is_empty next
    then ok page
    else (walk lib sql db (record req { pagination = record req.pagination { cursor = next } }) fuel
        >>= λ rest. ok (page ++ rest))

-- The packages give back the data of this row's cursor, whose text is not empty.
pub record Transportable (lib : CursorLibrary) (d : Domain) : Type 0 where
  pub json : Bytes
  pub marshalled : lib.marshal (key d) ≡ ok json
  pub unmarshalled : lib.unmarshal json ≡ ok (key d)
  pub decoded : lib.decode (lib.encode json) ≡ ok json
  pub nonempty : is_empty (lib.encode json) ≡ false

abbrev pub page_request : ℕ → Bytes → Bytes → Bytes → ListDomainRequest
page_request n status hostname cursor = record {
  pagination = record { page = pos 0; page_size = pos (suc n); cursor = cursor };
  status = status;
  hostname = hostname;
}

take-drop : (n : ℕ) (l : List Domain) → take n l ++ drop n l ≡ l
take-drop zero l = refl
take-drop (suc n) [] = refl
take-drop (suc n) (d ∷ l) = ap (λ k. d ∷ k) (take-drop n l)

take_short : (n : ℕ) (l : List Domain) → (length (take n l) == n) ≡ false → take n l ≡ l
take_short zero l h = cc
take_short (suc n) [] h = refl
take_short (suc n) (d ∷ l) h = ap (λ k. d ∷ k) (take_short n l (ground arith))

last_of-append : (a d : Domain) (xs l : List Domain) → last_of a (xs ++ d ∷ l) ≡ last_of d l
last_of-append a d [] l = refl
last_of-append a d (x ∷ xs) l = last_of-append x d xs l

length-keep : (test : Domain → Bool) (l : List Domain) → length (keep test l) ≤ length l
unfolding keep
length-keep test [] = omega arith
length-keep test (d ∷ l) = ground (arith, length-keep test l)

keep-none : (l : List Domain) → keep (starts_after none) l ≡ l
unfolding keep
keep-none [] = refl
keep-none (d ∷ l) = ap (λ k. d ∷ k) (keep-none l)

-- The rows after the last row of a part in the middle.
keep-middle :
    (done : List Domain) (d : Domain) (l m : List Domain)
    → Strict row_before (done ++ d ∷ (l ++ m))
    → keep (starts_after (some (key (last_of d l)))) (done ++ d ∷ (l ++ m)) ≡ m
keep-middle [] d l m h = keep-starts_after d l m h
keep-middle (a ∷ done) d l m h =
    let e = append_assoc done (d ∷ l) m in
    subst (λ c. keep (starts_after (some (key c))) (a ∷ (done ++ d ∷ (l ++ m))) ≡ m)
      (last_of-append a d done l)
      (subst (λ k. keep (starts_after (some (key (last_of a (done ++ d ∷ l))))) (a ∷ k) ≡ m) e
        (keep-starts_after a (done ++ d ∷ l) m (subst (λ k. Strict row_before (a ∷ k)) (sym e) h)))

module _ (lib : CursorLibrary) (sql : SqlLibrary) (db : Db) (n : ℕ) (status hostname : Bytes) where
  abbrev all : List Domain
  all = rows sql db (page_request n status hostname [])

  -- What a cursor has the query do: it goes on with the rows `rest`.
  record Leads (cursor : Bytes) (rest : List Domain) : Type 0 where
    after : Option PaginateData
    clauses :
        paginate lib (page_request n status hostname cursor).pagination
        ≡ record { after = after; offset = pos 0; limit = suc n }
    following : keep (starts_after after) all ≡ rest

  list_domains-page :
      (cursor : Bytes) (rest : List Domain)
      → Leads cursor rest
      → list_domains lib sql db (page_request n status hostname cursor)
        ≡ (next_cursor lib (pos (suc n)) (take (suc n) rest) >>= λ c. ok (take (suc n) rest, c))
  unfolding list_domains rows
  list_domains-page cursor rest h = rw (h.clauses, h.following)

  first-Leads : Leads [] all
  unfolding paginate
  first-Leads = record { after = none; clauses = refl; following = keep-none all }

  -- The cursor of the last row of a part in the middle leads to what follows.
  next-Leads :
      (done : List Domain) (d : Domain) (l m : List Domain)
      → all ≡ done ++ d ∷ (l ++ m)
      → Strict row_before all
      → (t : Transportable lib (last_of d l)) → Leads (lib.encode t.json) m
  unfolding paginate decode_cursor
  next-Leads done d l m e h t = record {
    after = some (key (last_of d l));
    clauses = rw (t.nonempty, t.decoded, t.unmarshalled);
    following =
        subst (λ k. keep (starts_after (some (key (last_of d l)))) k ≡ m) (sym e)
          (keep-middle done d l m (subst (Strict row_before) e h));
  }

  All-last : (P : Domain → Type 0) (d : Domain) (l : List Domain) → All P (d ∷ l) → P (last_of d l)
  All-last P d [] h = h.0
  All-last P d (x ∷ l) h = All-last P x l h.1

  All-take : (P : Domain → Type 0) (k : ℕ) (l : List Domain) → All P l → All P (take k l)
  All-take P zero l h = tt
  All-take P (suc k) [] h = tt
  All-take P (suc k) (d ∷ l) h = (h.0, All-take P k l h.1)

  next_cursor-full :
      (d : Domain) (l : List Domain) (t : Transportable lib (last_of d l))
      → (length (d ∷ l) == suc n) ≡ true
      → next_cursor lib (pos (suc n)) (d ∷ l) ≡ ok (lib.encode t.json)
  unfolding next_cursor encode_cursor
  next_cursor-full d l t h = rw (h, t.marshalled)

  next_cursor-short :
      (d : Domain) (l : List Domain)
      → (length (d ∷ l) == suc n) ≡ false
      → next_cursor lib (pos (suc n)) (d ∷ l) ≡ ok []
  unfolding next_cursor
  next_cursor-short d l h = rw h

  walk-from :
      (fuel : ℕ) (done rest : List Domain) (cursor : Bytes)
      → Leads cursor rest
      → all ≡ done ++ rest
      → Strict row_before all
      → All (Transportable lib) rest
      → length rest < fuel
      → walk lib sql db (page_request n status hostname cursor) fuel ≡ ok rest
  unfolding walk next_cursor
  walk-from zero done rest cursor a e s t h = absurd (omega arith)
  walk-from (suc fuel) done [] cursor a e s t h = rw (list_domains-page cursor [] a)
  walk-from (suc fuel) done (d ∷ l) cursor a e s t h =
      elim (Bool-cases (length (d ∷ take n l) == suc n)) [
        | inl full ↦
            let u = All-last (Transportable lib) d (take n l) (t.0, All-take _ n l t.1) in
            let e' = e ∙ ap (λ k. done ++ d ∷ k) (sym (take-drop n l)) in
            let later =
              walk-from fuel (done ++ d ∷ take n l) (drop n l) (lib.encode u.json)
                (next-Leads done d (take n l) (drop n l) e' s u)
                (e' ∙ sym (append_assoc done (d ∷ take n l) (drop n l))) s
                (All-drop (Transportable lib) n l t.1) (omega (arith, length-drop n l)) in
            rw
              (
                list_domains-page cursor (d ∷ l) a,
                next_cursor-full d (take n l) u full,
                u.nonempty,
                later,
              )
              (ap (λ k. ok (d ∷ k)) (take-drop n l))
        | inr short ↦
            rw (list_domains-page cursor (d ∷ l) a, next_cursor-short d (take n l) short)
              (ap (λ k. ok (d ∷ k)) (take_short n l (ground (arith, short))))
      ]

-- Where no two domains share an identifier and each row's cursor can be read back, a client that
-- asks for pages of `n + 1` rows and follows the cursors gets, with more requests to spare than
-- there are rows, all rows that match, each once and in the order of their keys.
pub walk-rows :
    (lib : CursorLibrary) (sql : SqlLibrary) (db : Db) (n : ℕ) (status hostname : Bytes) (fuel : ℕ)
    → Distinct OtherId db.domains
    → All (Transportable lib) db.domains
    → length db.domains < fuel
    → walk lib sql db (page_request n status hostname []) fuel
      ≡ ok (rows sql db (page_request n status hostname []))
unfolding rows
walk-rows lib sql db n status hostname fuel distinct t h =
    let req = page_request n status hostname [] in
    let sorted = sort row_before db.domains in
    walk-from lib sql db n status hostname fuel [] (rows sql db req) []
      (first-Leads lib sql db n status hostname) refl (rows-Strict sql db req distinct)
      (All-keep (Transportable lib) (matches sql req) sorted
        (All-sort row_before (Transportable lib) db.domains t))
      (omega (arith, length-keep (matches sql req) sorted, length-sort row_before db.domains, h))
