-- ===== src/Pagination/Keys.antt =====
-- The order of the rows of internal/pkg/repo/domain/list.go: by creation, then by identifier.
use tunnel_manager.Prelude.{
  some, ◌≡◌, refl, sym, ap, ◌≢◌, inl, inr, Bool, true, false, List, [], ◌∷◌, ◌++◌, All, Bool-cases,
  arith,
}
use tunnel_manager.Prelude.Text.Order.{
  text_lt_trans, text_lt_asym, text_lt_total, sort, sort-Ordered,
}
use tunnel_manager.Prelude.Strict.{Strict, Distinct, Distinct-sort, Strict-of}
use tunnel_manager.Model.{Domain}
use tunnel_manager.Repo.{Db}
use tunnel_manager.Pagination.{
  PaginateData, key_before, key, row_before, keep, starts_after, SqlLibrary, ListDomainRequest,
  matches, rows, last_of,
}

key_before_trans :
    (a b c : PaginateData)
    → key_before b a ≡ false
    → key_before c b ≡ false
    → key_before c a ≡ false
unfolding key_before
key_before_trans a b c h k = ground (arith, text_lt_trans a.id b.id c.id)

pub key_before_asym : (a b : PaginateData) → key_before a b ≡ true → key_before b a ≡ false
unfolding key_before
key_before_asym a b h = ground (arith, text_lt_asym a.id b.id)

pub key_before_irrefl : (a : PaginateData) → key_before a a ≡ false
key_before_irrefl a = elim (Bool-cases (key_before a a)) [
  | inl e ↦ key_before_asym a a e
  | inr e ↦ e
]

-- The identifiers differ.
abbrev pub OtherId : Domain → Domain → Type 0
OtherId d e = d.id ≢ e.id

row_before_total :
    (a b : Domain) → row_before a b ≡ false → row_before b a ≡ false → ¬ (OtherId b a)
unfolding key_before
row_before_total a b h k p = p (sym (text_lt_total a.id b.id (ground arith) (ground arith)))

pub All-keep :
    (P : Domain → Type 0) (test : Domain → Bool) (l : List Domain) → All P l → All P (keep test l)
unfolding keep
All-keep P test [] h = tt
All-keep P test (d ∷ l) (h, hs) = elim (Bool-cases (test d)) [
  | inl e ↦ rw e (h, All-keep P test l hs)
  | inr e ↦ rw e (All-keep P test l hs)
]

Strict-keep :
    (test : Domain → Bool) (l : List Domain) → Strict row_before l → Strict row_before (keep test l)
unfolding keep
Strict-keep test [] h = tt
Strict-keep test (d ∷ l) (h, hs) = elim (Bool-cases (test d)) [
  | inl e ↦ rw e (All-keep (λ y. row_before d y ≡ true) test l h, Strict-keep test l hs)
  | inr e ↦ rw e (Strict-keep test l hs)
]

pub rows-Strict :
    (sql : SqlLibrary) (db : Db) (req : ListDomainRequest)
    → Distinct OtherId db.domains
    → Strict row_before (rows sql db req)
unfolding rows
rows-Strict sql db req h = Strict-keep (matches sql req) (sort row_before db.domains) (
    Strict-of row_before OtherId row_before_total (sort row_before db.domains)
      (sort-Ordered row_before (λ a b c. key_before_trans (key a) (key b) (key c))
        (λ a b. key_before_asym (key a) (key b)) db.domains)
      (Distinct-sort row_before OtherId (λ a b p q. p (sym q)) db.domains h))

keep_all : (test : Domain → Bool) (l : List Domain) → All (λ d. test d ≡ true) l → keep test l ≡ l
unfolding keep
keep_all test [] h = refl
keep_all test (d ∷ l) (e, h) = rw e (ap (λ k. d ∷ k) (keep_all test l h))

All-last_of :
    (P : Domain → Type 0) (d : Domain) (l m : List Domain) → All P (d ∷ (l ++ m)) → P (last_of d l)
All-last_of P d [] m h = h.0
All-last_of P d (e ∷ l) m h = All-last_of P e l m h.1

-- Of rows in order, those after the last of a part at the front are the rest.
pub keep-starts_after :
    (d : Domain) (l m : List Domain)
    → Strict row_before (d ∷ (l ++ m))
    → keep (starts_after (some (key (last_of d l)))) (d ∷ (l ++ m)) ≡ m
unfolding keep
keep-starts_after d [] m (h, hs) = rw (key_before_irrefl (key d)) (keep_all (row_before d) m h)
keep-starts_after d (e ∷ l) m (h, hs) =
    rw
      (key_before_asym (key d) (key (last_of e l))
        (All-last_of (λ y. row_before d y ≡ true) e l m h))
      (keep-starts_after e l m hs)
