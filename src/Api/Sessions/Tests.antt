-- ===== src/Api/Sessions/Tests.antt =====
-- A login at a concrete input.
use tunnel_manager.Prelude.{true, none, ok}
use tunnel_manager.Prelude.Text.{codes}
use tunnel_manager.Auth.Samples.{
  open_book, open_book-IsSigned, service, users, users-IsAccounts, users-IsEncodable,
}
use tunnel_manager.Api.Sessions.{LoginRequest, serve_login}
use tunnel_manager.Api.Sessions.Login.{Enters, serve_login-Enters}

abbrev request : LoginRequest
request = record { username = codes "admin"; password = codes "first password" }

serve_login-Enters_example :
    Enters open_book service users 2000000000
      (codes "admin")
      (serve_login open_book service users none true 1500000000 2000000000 (ok request))
serve_login-Enters_example =
    serve_login-Enters open_book service users true 1500000000 2000000000 request open_book-IsSigned
      users-IsAccounts users-IsEncodable
