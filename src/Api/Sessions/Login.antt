-- ===== src/Api/Sessions/Login.antt =====
-- What a login that is answered with success gives the browser.
use tunnel_manager.Prelude.{
  ℕ, ◌-◌, ◌*◌, ◌≤◌, ◌<◌, ◌≡◌, refl, ◌⊎◌, inl, inr, Bool, none, some, Result, ok, err, Error, arith,
  leb, ltb, Bool-cases,
}
use Prim.Native.Nat.{◌/◌}
use native.Mathlib.Nat.{div-add-mod'}
use tunnel_manager.Prelude.Integers.{pos}
use tunnel_manager.Prelude.Text.{Bytes}
use tunnel_manager.Model.{Auth}
use tunnel_manager.Auth.{
  second, numeric_date, claims_of, AuthLibrary, AuthService, Users, login, authenticate,
}
use tunnel_manager.Auth.Password.{IsAccounts}
use tunnel_manager.Auth.Tokens.{IsSigned, IsEncodable, authenticate-login}
use tunnel_manager.Api.{reply, some_token}
use tunnel_manager.Api.Sessions.{
  Cookie, WithCookie, LoginRequest, serve_login, login_answer, login_err, set_cookie, cleared,
  age_of,
}

-- The cookie holds the token, and the browser keeps it no longer than until the expiry, or for one
-- second; after the expiry the token is not set, and the cookie is cleared.
pub Carries : Bytes → ℕ → ℕ → Cookie → Type 0
Carries token expires_at now c =
    ((expires_at ≤ now) × (c ≡ cleared c.secure))
    ⊎ ((now < expires_at)
        × (c.value ≡ token)
        × (c.expires ≡ expires_at)
        × ((age : ℕ) × (c.max_age ≡ pos age) × ((age ≡ 1) ⊎ (age * second ≤ expires_at - now))))

age_of-bound : (n : ℕ) → (age_of n ≡ 1) ⊎ (age_of n * second ≤ n)
age_of-bound n = elim (Bool-cases (ltb (n / second) 1)) [
  | inl short ↦ inl (rw short)
  | inr e ↦ inr (rw e (omega (arith, div-add-mod' n second)))
]

set_cookie-Carries :
    (token : Bytes) (expires_at now : ℕ) (secure : Bool)
    → Carries token expires_at now (set_cookie now token expires_at secure)
unfolding set_cookie cleared Carries
set_cookie-Carries token expires_at now secure = elim (Bool-cases (leb expires_at now)) [
  | inl late ↦ inl (ground arith, rw late)
  | inr e ↦ inr (
      rw e (
        ground arith,
        refl,
        refl,
        (age_of (expires_at - now), refl, age_of-bound (expires_at - now)),
      ))
]

-- What a login comes to: success, with a token that is accepted as the user's until the second of its
-- expiry, in the body and in the cookie, or an error without a cookie.
pub Enters : AuthLibrary → AuthService → Users → ℕ → Bytes → WithCookie → Type 0
Enters lib s users now username (r, cookie) =
    ((token : Bytes) × (expires_at : ℕ) × (c : Cookie) × (r
        ≡ reply 200 (some_token token expires_at))
      × (cookie ≡ some c)
      × Carries token expires_at now c
      × ((later : ℕ)
          → later < numeric_date expires_at
          → authenticate lib s users none later token ≡ ok username))
    ⊎ ((400 ≤ r.status) × (cookie ≡ none))

login_err-status : (e : Error) → 400 ≤ (login_err e).status
unfolding login_err
login_err-status e = ground arith

-- With a token library that verifies what it signed, a well-formed table, and claims that can be
-- encoded: a login, with a database that answers, is answered with success, and then the token in the
-- body and in the cookie is accepted as the user's until the last whole second that is not after the
-- expiry in the body, or with an error and without a cookie. The browser keeps the cookie until that
-- expiry at most, or for one second; a cookie is cleared if the expiry has passed.
pub serve_login-Enters :
    (lib : AuthLibrary) (s : AuthService) (users : Users) (secure : Bool) (signed_at now : ℕ)
    (req : LoginRequest)
    → IsSigned lib
    → IsAccounts users
    → ((a : Auth)
        → users req.username ≡ some a
        → IsEncodable (claims_of a.username a.token_version signed_at s.ttl))
    → Enters lib s users now req.username
        (serve_login lib s users none secure signed_at now (ok req))
unfolding serve_login Enters
serve_login-Enters lib s users secure signed_at now req laws table encodable =
    by_result (login lib s users none req.username req.password signed_at) refl
  where
    by_result :
        (r : Result (Bytes × ℕ))
        → login lib s users none req.username req.password signed_at ≡ r
        → Enters lib s users now req.username (login_answer now secure r)
    by_result (err e) h = inr (login_err-status e, refl)
    by_result (ok (token, expires_at)) h = inl (
      token,
      expires_at,
      set_cookie now token expires_at secure,
      refl,
      refl,
      set_cookie-Carries token expires_at now secure,
      λ later before.
          authenticate-login lib s users req.username req.password token signed_at expires_at later
            laws table encodable h before,
    )
