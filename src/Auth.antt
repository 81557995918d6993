-- ===== src/Auth.antt =====
-- internal/services/auth, internal/pkg/repo/auth and internal/pkg/jwt: the accounts, their passwords
-- and the tokens that stand for them.
pub mod Tokens
pub mod Password
pub mod Bootstrap
pub mod Samples
mod Tests
use Prim.Native.Nat.{◌/◌}
use tunnel_manager.Prelude.{
  ℕ, ◌+◌, ◌*◌, Bool, true, false, not, ◌||◌, List, [], ◌∷◌, Option, none, some, Result, ok, err,
  Error, external, wrap, sentinel, invalid_password, same_password, unauthorized,
  invalid_credentials, errors_is, refuse, ◌>>=◌, ◌>>◌, ltb, ◌==◌, length, if◌then◌else◌,
}
use tunnel_manager.Prelude.{Sentinel}
use tunnel_manager.Prelude.Text.{Bytes, codes, text_eq}
use tunnel_manager.Model.{Auth}

-- Times are in nanoseconds.
abbrev pub second : ℕ
second = 1000000000

-- The claims of a token; `issued_at` and `expires_at` are the registered ones that the program sets,
-- as times.
-- A version below zero, which the program refuses as it refuses zero, is written zero.
pub record Claims : Type 0 where
  pub token_version : ℕ
  pub subject : Bytes
  pub issued_at : ℕ
  pub expires_at : ℕ

-- What the key function sees of a token.
pub record TokenHeader : Type 0 where
  pub is_hmac : Bool
  pub alg : Bytes

-- The packages golang-jwt and bcrypt. `parse_with_claims` takes the key function, the valid methods,
-- whether an expiry is required, the time and the text; it gives `token.Valid` and the claims.
-- `generate` takes the salt that it draws.
pub record AuthLibrary : Type 0 where
  pub sign : Bytes → Claims → Result Bytes
  pub parse_with_claims :
      (TokenHeader → Result Bytes) → List Bytes → Bool → ℕ → Bytes → Result (Bool × Claims)
  pub generate : ℕ → Bytes → Result Bytes
  pub compare : Bytes → Bytes → Bool

abbrev pub wrapped {ℓ} : {A : Type ℓ} → Bytes → Result A → Result A
wrapped m (ok a) = ok a
wrapped m (err e) = err (wrap m e)

-- `jwtlib.NewNumericDate`, which is documented to truncate a time to whole seconds.
unfoldable pub numeric_date : ℕ → ℕ
numeric_date t = t / second * second

unfoldable pub claims_of : Bytes → ℕ → ℕ → ℕ → Claims
unfolding numeric_date
claims_of username version now ttl = record {
  token_version = version;
  subject = username;
  issued_at = numeric_date now;
  expires_at = numeric_date (now + ttl);
}

unfoldable pub generate_token : AuthLibrary → Bytes → Bytes → ℕ → ℕ → ℕ → Result (Bytes × ℕ)
unfolding claims_of
generate_token lib secret username version now ttl =
    wrapped (codes "jwt: sign token") (lib.sign secret (claims_of username version now ttl))
    >>= λ signed. ok (signed, now + ttl)

unfoldable pub key_function : Bytes → TokenHeader → Result Bytes
key_function secret t =
    if not t.is_hmac then err (external (codes "jwt: unexpected signing method")) else ok secret

unfoldable pub parse_token : AuthLibrary → Bytes → ℕ → Bytes → Result (Bytes × ℕ)
parse_token lib secret now token =
    wrapped (codes "jwt: parse token")
      (lib.parse_with_claims (key_function secret) (codes "HS256" ∷ []) true now token)
    >>= λ (valid, claims). refuse (not valid) (external (codes "jwt: invalid token")) >>= λ _.
        refuse (text_eq claims.subject [] || ltb claims.token_version 1)
          (external (codes "jwt: invalid claims"))
        >>= λ _. ok (claims.subject, claims.token_version)

-- The table `auths` by its primary key. An operation takes the error with which the database fails,
-- if it does.
abbrev pub Users : Type 0
Users = Bytes → Option Auth

abbrev pub found : Option Auth → Result Auth
found (some a) = ok a
found none = err (sentinel Sentinel.not_found)

unfoldable pub get_by_username : Users → Option Error → Bytes → Result Auth
get_by_username users (some e) username = err e
get_by_username users none username = found (users username)

unfoldable pub put : Users → Auth → Users
put users a username = if text_eq a.username username then some a else users username

abbrev created : Users → Auth → Option Auth → Users × Result (Unit {0})
created users a (some b) =
    (users, err (external (codes "constraint failed: UNIQUE constraint failed: auths.username")))
created users a none = (put users a, ok tt)

unfoldable pub create : Users → Option Error → Auth → Users × Result (Unit {0})
create users (some e) a = (users, err e)
create users none a = created users a (users a.username)

abbrev updated : Users → Auth → Option Auth → Users × Result (Unit {0})
updated users a none = (users, err (sentinel Sentinel.not_found))
updated users a (some b) = (put users a, ok tt)

unfoldable pub update : Users → Option Error → Auth → Users × Result (Unit {0})
update users (some e) a = (users, err e)
update users none a = updated users a (users a.username)

pub record AuthService : Type 0 where
  pub secret : Bytes
  pub ttl : ℕ
  pub admin_username : Bytes
  pub admin_password : Bytes

-- `err` of a lookup: `m` is how an error other than the missing account is wrapped.
abbrev pub missing_as {ℓ} : {A : Type ℓ} → Sentinel → Bytes → Error → Result A
missing_as s m e = if errors_is e Sentinel.not_found then err (sentinel s) else err (wrap m e)

abbrev pub account {ℓ} : {A : Type ℓ} → Sentinel → Bytes → Result A → Result A
account s m (ok a) = ok a
account s m (err e) = missing_as s m e

-- The comparison with the dummy hash for a missing account has no result that is used.
unfoldable pub login :
    AuthLibrary → AuthService → Users → Option Error → Bytes → Bytes → ℕ → Result (Bytes × ℕ)
unfolding generate_token get_by_username
login lib s users fault username password now =
    account invalid_credentials (codes "authservice: get user")
      (get_by_username users fault username)
    >>= λ auth.
        refuse (not (lib.compare auth.password password)) (sentinel invalid_credentials) >>= λ _.
        wrapped (codes "authservice: generate token")
          (generate_token lib s.secret auth.username auth.token_version now s.ttl)

abbrev unauthorized_unless {ℓ} : {A : Type ℓ} → Result A → Result A
unauthorized_unless (ok a) = ok a
unauthorized_unless (err e) = err (sentinel unauthorized)

unfoldable pub authenticate :
    AuthLibrary → AuthService → Users → Option Error → ℕ → Bytes → Result Bytes
unfolding parse_token get_by_username
authenticate lib s users fault now token =
    unauthorized_unless (parse_token lib s.secret now token) >>= λ (username, version).
    account unauthorized (codes "authservice: authenticate: get user")
      (get_by_username users fault username)
    >>= λ auth.
        refuse (not (auth.token_version == version)) (sentinel unauthorized) >>= λ _. ok username

-- What `ChangePassword` asks of the passwords, before it writes.
unfoldable pub check_password : AuthLibrary → Auth → Bytes → Bytes → Result (Unit {0})
check_password lib auth current_password new_password =
    refuse (not (lib.compare auth.password current_password)) (sentinel invalid_credentials)
    >>= λ _.
        refuse (ltb (length new_password) 12 || ltb 72 (length new_password))
          (sentinel invalid_password)
        >>= λ _. refuse (lib.compare auth.password new_password) (sentinel same_password)

-- The account that is written. The version is an int64 in the source.
abbrev pub rotated : Auth → Bytes → ℕ → Auth
rotated auth hash now = record auth {
  password = hash;
  token_version = auth.token_version + 1;
  updated_at = now;
}

abbrev after_update :
    AuthLibrary → AuthService → Auth → ℕ → Users × Result (Unit {0}) → Users × Result (Bytes × ℕ)
after_update lib s auth now (users, err e) =
    (users, err (wrap (codes "authservice: change password: update user") e))
after_update lib s auth now (users, ok _) = (
  users,
  wrapped (codes "authservice: change password: generate token")
      (generate_token lib s.secret auth.username auth.token_version now s.ttl),
)

-- The error of the database on the lookup and on the update, the salt, and the time of each reading of the clock.
pub record Surroundings : Type 0 where
  pub get_fault : Option Error
  pub update_fault : Option Error
  pub salt : ℕ
  pub written_at : ℕ
  pub signed_at : ℕ

unfoldable pub rotate :
    AuthLibrary
    → AuthService
    → Surroundings
    → Users
    → Result (Auth × Bytes)
    → Users × Result (Bytes × ℕ)
unfolding update generate_token
rotate lib s w users (err e) = (users, err e)
rotate lib s w users (ok (auth, hash)) =
    after_update lib s (rotated auth hash w.written_at) w.signed_at
      (update users w.update_fault (rotated auth hash w.written_at))

unfoldable pub change_password :
    AuthLibrary
    → AuthService
    → Surroundings
    → Users
    → Bytes
    → Bytes
    → Bytes
    → Users × Result (Bytes × ℕ)
unfolding get_by_username check_password rotate
change_password lib s w users username current_password new_password = rotate lib s w users (
    account invalid_credentials (codes "authservice: change password: get user")
      (get_by_username users w.get_fault username)
    >>= λ auth. check_password lib auth current_password new_password >>= λ _.
        wrapped (codes "authservice: change password: hash password")
          (lib.generate w.salt new_password)
        >>= λ hash. ok (auth, hash))

abbrev pub first_account : AuthService → Surroundings → Bytes → Auth
first_account s w hash = record {
  username = s.admin_username;
  password = hash;
  token_version = 1;
  created_at = w.written_at;
  updated_at = w.written_at;
}

abbrev pub add_admin : AuthService → Surroundings → Users → Result Bytes → Users × Result (Unit {0})
add_admin s w users (err e) = (users, err (wrap (codes "authservice: bootstrap: hash password") e))
add_admin s w users (ok hash) = create users w.update_fault (first_account s w hash)

abbrev pub bootstrap_on :
    AuthLibrary → AuthService → Surroundings → Users → Result Auth → Users × Result (Unit {0})
bootstrap_on lib s w users (ok a) = (users, ok tt)
bootstrap_on lib s w users (err e) =
    let write = add_admin s w users (lib.generate w.salt s.admin_password) in
    if not (errors_is e Sentinel.not_found)
    then (users, err (wrap (codes "authservice: bootstrap: get user") e))
    else write

unfoldable pub bootstrap :
    AuthLibrary → AuthService → Surroundings → Users → Users × Result (Unit {0})
unfolding get_by_username create
bootstrap lib s w users =
    bootstrap_on lib s w users (get_by_username users w.get_fault s.admin_username)
