-- ===== src/Repo/Laws.antt =====
-- How the writes to the tables of internal/pkg/repo/domain end, and which rows they leave.
use tunnel_manager.Prelude.{
  ℕ, ◌≡◌, ◌++◌, refl, ◌⊎◌, inl, inr, ◌||◌, List, [], ◌∷◌, Result, ok, err, Error, Bool-cases, true,
  ok-injective, sym, ap, ◌∙◌, sentinel, not_found, external,
}
use mathlib.Core.Path.{subst}
use tunnel_manager.Prelude.Text.{Bytes, codes, text_eq, text_eq_iff, text_eq_refl}
use tunnel_manager.Model.{Domain, DomainRoute}
use tunnel_manager.Repo.{
  Db, create, delete, get, find_domain, drop_row, routes_of, routes_not_of, replace_routes, has_key,
  set_row, set_rows, row, has_hostname, update, update_bulk,
}

-- Either the write succeeded, or it failed and the tables are as they were.
abbrev pub IsAtomic : Db → Db × Result (Unit {0}) → Type 0
IsAtomic db r = (r.1 ≡ ok tt) ⊎ ((e : Error) × (r ≡ (db, err e)))

abbrev exists : Error
exists = external (codes "constraint failed: UNIQUE constraint failed")

pub create-IsAtomic : (db : Db) (d : Domain) → IsAtomic db (create db d)
unfolding create
create-IsAtomic db d =
    elim (Bool-cases (has_key d.id db.domains || has_hostname d.hostname db.domains)) [
      | inl clash ↦ inr (exists, rw clash refl)
      | inr free ↦ inl (rw free refl)
    ]

pub replace_routes-IsAtomic :
    (db : Db) (now : ℕ) (id origin : Bytes) (routes : List DomainRoute)
    → IsAtomic db (replace_routes db now id origin routes)
unfolding replace_routes
replace_routes-IsAtomic db now id origin routes = elim (Bool-cases (has_key id db.domains)) [
  | inl there ↦ inl (rw there refl)
  | inr missing ↦ inr (sentinel not_found, rw missing refl)
]

pub delete-IsAtomic : (db : Db) (id : Bytes) → IsAtomic db (delete db id)
unfolding delete
delete-IsAtomic db id = elim (Bool-cases (has_key id db.domains)) [
  | inl there ↦ inl (rw there refl)
  | inr missing ↦ inr (sentinel not_found, rw missing refl)
]

find_domain-drop_row :
    (id : Bytes) (l : List Domain) → find_domain id (drop_row id l) ≡ err (sentinel not_found)
unfolding find_domain drop_row
find_domain-drop_row id [] = refl
find_domain-drop_row id (d ∷ l) = elim (Bool-cases (text_eq d.id id)) [
  | inl same ↦ rw same (find_domain-drop_row id l)
  | inr other ↦ simp (other, find_domain-drop_row id l)
]

routes_of-routes_not_of :
    (id : Bytes) (l : List DomainRoute) → routes_of id (routes_not_of id l) ≡ []
unfolding routes_of routes_not_of
routes_of-routes_not_of id [] = refl
routes_of-routes_not_of id (r ∷ l) = elim (Bool-cases (text_eq r.domain_id id)) [
  | inl same ↦ rw same (routes_of-routes_not_of id l)
  | inr other ↦ simp (other, routes_of-routes_not_of id l)
]

-- Neither the row nor its routes are found.
abbrev pub IsGone : Db → Bytes → Type 0
IsGone db id = (get db id ≡ err (sentinel not_found)) × (routes_of id db.routes ≡ [])

pub delete-IsGone : (db : Db) (id : Bytes) → (delete db id).1 ≡ ok tt → IsGone (delete db id).0 id
unfolding delete get
delete-IsGone db id e = elim (Bool-cases (has_key id db.domains)) [
  | inl there ↦ rw there (find_domain-drop_row id db.domains, routes_of-routes_not_of id db.routes)
  | inr missing ↦ cc
]

pub find_domain-id :
    (id : Bytes) (l : List Domain) {d : Domain} → find_domain id l ≡ ok d → d.id ≡ id
unfolding find_domain
find_domain-id id [] e = cc
find_domain-id id (d ∷ l) e = elim (Bool-cases (text_eq d.id id)) [
  | inl same ↦
      ap (λ (x : Domain). x.id) (sym (ok-injective (rw same at e))) ∙ (text_eq_iff d.id id).0 same
  | inr other ↦ find_domain-id id l (rw other at e)
]

find_domain-set_row :
    (d : Domain) (l : List Domain)
    → has_key d.id l ≡ true
    → find_domain d.id (set_row d l) ≡ ok (row d)
unfolding find_domain set_row has_key
find_domain-set_row d [] h = cc
find_domain-set_row d (e ∷ l) h = elim (Bool-cases (text_eq e.id d.id)) [
  | inl same ↦ rw same (rw (text_eq_refl d.id) refl)
  | inr other ↦ rw other (rw other (find_domain-set_row d l (rw other at h)))
]

pub get-update :
    (db : Db) (d : Domain) → (update db d).1 ≡ ok tt → get (update db d).0 d.id ≡ ok (row d)
unfolding update get
get-update db d e = elim (Bool-cases (has_key d.id db.domains)) [
  | inl there ↦ rw there (find_domain-set_row d db.domains there)
  | inr missing ↦ cc (missing, e)
]

pub update-IsAtomic : (db : Db) (d : Domain) → IsAtomic db (update db d)
unfolding update
update-IsAtomic db d = elim (Bool-cases (has_key d.id db.domains)) [
  | inl there ↦ inl (rw there refl)
  | inr missing ↦ inr (sentinel not_found, rw missing refl)
]

has_key-set_row :
    (id : Bytes) (d : Domain) (l : List Domain) → has_key id (set_row d l) ≡ has_key id l
unfolding has_key set_row
has_key-set_row id d [] = refl
has_key-set_row id d (e ∷ l) = elim (Bool-cases (text_eq e.id d.id)) [
  | inl q ↦ rw (q, (text_eq_iff e.id d.id).0 q, has_key-set_row id d l)
  | inr q ↦ rw (q, has_key-set_row id d l)
]

has_key-set_rows : (id : Bytes) (ds l : List Domain) → has_key id (set_rows ds l) ≡ has_key id l
unfolding set_rows
has_key-set_rows id [] l = refl
has_key-set_rows id (d ∷ ds) l = has_key-set_rows id ds (set_row d l) ∙ has_key-set_row id d l

-- Neither kind of update changes which rows there are.
pub has_key-update :
    (db : Db) (d : Domain) (id : Bytes) → has_key id (update db d).0.domains ≡ has_key id db.domains
unfolding update
has_key-update db d id = elim (Bool-cases (has_key d.id db.domains)) [
  | inl e ↦ rw e (has_key-set_row id d db.domains)
  | inr e ↦ rw e
]

pub has_key-update_bulk :
    (db : Db) (ds : List Domain) (id : Bytes)
    → has_key id (update_bulk db ds).domains ≡ has_key id db.domains
unfolding update_bulk
has_key-update_bulk db ds id = has_key-set_rows id ds db.domains

pub has_key-create :
    (db db' : Db) (d : Domain) → create db d ≡ (db', ok tt) → has_key d.id db'.domains ≡ true
unfolding create has_key
has_key-create db db' d e =
    elim (Bool-cases (has_key d.id db.domains || has_hostname d.hostname db.domains)) [
      | inl taken ↦ cc (rw taken at e)
      | inr free ↦
          let e' : (record { domains = row d ∷ db.domains; routes = d.routes ++ db.routes }, ok tt)
              ≡ (db', ok tt) =
            rw free at e in
          subst (λ (x : Db). has_key d.id x.domains ≡ true)
            (ap (λ (x : Db × Result (Unit {0})). x.0) e') (rw (text_eq_refl d.id))
    ]
