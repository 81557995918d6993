-- ===== src/Auth/Tests.antt =====
-- The theorems on accounts at concrete inputs.
use tunnel_manager.Prelude.{
  ℕ, ◌≤◌, ◌<◌, ◌≡◌, refl, ◌⊎◌, inr, ◌∷◌, none, Result, ok, err, Error, sentinel, unauthorized,
  arith,
}
use tunnel_manager.Prelude.Text.{Bytes, codes, text_eq}
use tunnel_manager.Auth.Samples.{
  open_book, open_book-IsSigned, service, admin, admin-IsEncodable, users, users-IsAccounts,
  users-IsEncodable, calm, named,
}
use tunnel_manager.Auth.{
  Users, numeric_date, claims_of, generate_token, parse_token, get_by_username, update,
  check_password, login, authenticate, change_password, rotate, bootstrap,
}
use tunnel_manager.Auth.Password.{IsAccounts, Changes, change_password-Changes}
use tunnel_manager.Auth.Bootstrap.{Bootstrapped, bootstrap-Bootstrapped, writes-IsAccounts}
use tunnel_manager.Auth.Tokens.{authenticate-login, authenticate-change_password}

abbrev token : Bytes
token = 3 ∷ (1000000000 ∷ (11000000000 ∷ codes "admin"))

logged_in :
    login open_book service users none (codes "admin") (codes "first password") 1500000000
    ≡ ok (token, 11500000000)
unfolding login get_by_username generate_token claims_of numeric_date text_eq
logged_in = refl

authenticate-login_example :
    authenticate open_book service users none 10000000000 token ≡ ok (codes "admin")
authenticate-login_example =
    authenticate-login open_book service users (codes "admin") (codes "first password") token
      1500000000 11500000000 10000000000 open_book-IsSigned users-IsAccounts users-IsEncodable
      logged_in (unfold numeric_date in omega arith)

abbrev changed : Users × Result (Bytes × ℕ)
changed =
    change_password open_book service calm users (codes "admin") (codes "first password")
      (codes "second password")

abbrev new_token : Bytes
new_token = 4 ∷ (1000000000 ∷ (11000000000 ∷ codes "admin"))

changed_ok : changed.1 ≡ ok (new_token, 11600000000)
unfolding change_password get_by_username check_password update generate_token claims_of
    numeric_date text_eq rotate
changed_ok = refl

authenticate-change_password_example :
    ((now version : ℕ) (old : Bytes)
      → parse_token open_book (codes "s") now old ≡ ok (codes "admin", version)
      → version ≤ 3
      → authenticate open_book service changed.0 none now old ≡ err (sentinel unauthorized))
    × ((now : ℕ)
        → now < numeric_date 11600000000
        → authenticate open_book service changed.0 none now new_token ≡ ok (codes "admin"))
authenticate-change_password_example =
    authenticate-change_password open_book service calm users (codes "admin")
      (codes "first password") (codes "second password") new_token 11600000000 admin
      open_book-IsSigned users-IsAccounts (unfold text_eq in refl)
      (admin-IsEncodable 4 1600000000 (omega arith) (inr refl)) changed_ok

change_password-Changes_example :
    ((e : Error) × (changed ≡ (users, err e)))
    ⊎ Changes open_book calm users changed.0
        (codes "admin")
        (codes "first password")
        (codes "second password")
change_password-Changes_example =
    change_password-Changes open_book service calm users (codes "admin") (codes "first password")
      (codes "second password")

abbrev nobody : Users
nobody username = none

bootstrap-Bootstrapped_example :
    Bootstrapped open_book service calm nobody (bootstrap open_book service calm nobody)
bootstrap-Bootstrapped_example = bootstrap-Bootstrapped open_book service calm nobody

writes-IsAccounts_example :
    IsAccounts changed.0 × IsAccounts (bootstrap open_book service calm users).0
writes-IsAccounts_example =
    writes-IsAccounts open_book service calm users (codes "admin") (codes "first password")
      (codes "second password") users-IsAccounts named
