-- ===== src/Auth/Samples.antt =====
-- A token library in which a token lists its claims and a hash is the password, and a table with one
-- account.
use tunnel_manager.Prelude.{
  ℕ, ◌<◌, ◌⊎◌, ◌≡◌, ◌≢◌, refl, inl, inr, Bool, true, [], ◌∷◌, none, some, Result, ok, err, external,
  arith, ok-injective, some_eq, Bool-cases, if◌then◌else◌,
}
use mathlib.Core.Path.{subst}
use tunnel_manager.Prelude.Text.{Bytes, codes, text_eq, text_eq_iff}
use tunnel_manager.Prelude.Text.Utf8.{valid_utf8}
use tunnel_manager.Model.{Auth}
use tunnel_manager.Auth.{
  AuthLibrary, AuthService, Users, Surroundings, Claims, claims_of, numeric_date,
}
use tunnel_manager.Auth.Password.{IsAccount, IsAccounts}
use tunnel_manager.Auth.Tokens.{IsSigned, IsEncodable}

abbrev pub read_claims : Bytes → Result (Bool × Claims)
read_claims (v ∷ (i ∷ (e ∷ s))) =
    ok (true, record { token_version = v; subject = s; issued_at = i; expires_at = e })
read_claims _ = err (external (codes "malformed"))

abbrev pub open_book : AuthLibrary
open_book = record {
  sign = λ secret c. ok (c.token_version ∷ (c.issued_at ∷ (c.expires_at ∷ c.subject)));
  parse_with_claims = λ key methods expiring now token. read_claims token;
  generate = λ salt p. ok p;
  compare = text_eq;
}

pub open_book-IsSigned : IsSigned open_book
open_book-IsSigned = record {
  verifies = λ secret token c now signed encodable before.
      subst (λ t. read_claims t ≡ ok (true, c)) (ok-injective signed) refl;
}

abbrev pub service : AuthService
service = record {
  secret = codes "s";
  ttl = 10000000000;
  admin_username = codes "admin";
  admin_password = codes "first password";
}

admin_text : valid_utf8 (codes "admin") ≡ true
unfolding valid_utf8
admin_text = refl

pub admin-IsEncodable :
    (version signed_at : ℕ)
    → version < 5
    → (signed_at ≡ 1500000000) ⊎ (signed_at ≡ 1600000000)
    → IsEncodable (claims_of (codes "admin") version signed_at 10000000000)
unfolding claims_of numeric_date
admin-IsEncodable version signed_at few (inl e) = rw e (record {
  subject = admin_text;
  version = omega arith;
  issued = (1, refl, omega arith);
  expires = (11, refl, omega arith);
})
admin-IsEncodable version signed_at few (inr e) = rw e (record {
  subject = admin_text;
  version = omega arith;
  issued = (1, refl, omega arith);
  expires = (11, refl, omega arith);
})

abbrev pub admin : Auth
admin = record {
  username = codes "admin";
  password = codes "first password";
  token_version = 3;
  created_at = 0;
  updated_at = 0;
}

abbrev pub users : Users
users username = if text_eq (codes "admin") username then some admin else none

abbrev pub calm : Surroundings
calm = record {
  get_fault = none;
  update_fault = none;
  salt = 0;
  written_at = 5;
  signed_at = 1600000000;
}

pub named : codes "admin" ≢ []
named e = cc

pub users-IsAccounts : IsAccounts users
users-IsAccounts username a e = elim (Bool-cases (text_eq (codes "admin") username)) [
  | inr other ↦ cc (rw other at e)
  | inl same ↦
      let is_admin : admin ≡ a = some_eq (rw same at e) in
      subst (IsAccount username) is_admin (
        subst (λ u. IsAccount u admin) ((text_eq_iff (codes "admin") username).0 same)
          (record { named = refl; not_empty = named; versioned = omega arith }))
]

pub users-IsEncodable :
    (a : Auth)
    → users (codes "admin") ≡ some a
    → IsEncodable (claims_of a.username a.token_version 1500000000 10000000000)
unfolding text_eq
users-IsEncodable a e =
    subst (λ (x : Auth). IsEncodable (claims_of x.username x.token_version 1500000000 10000000000))
      (some_eq e) (admin-IsEncodable 3 1500000000 (omega arith) (inl refl))
