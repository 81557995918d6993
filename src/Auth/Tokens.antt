-- ===== src/Auth/Tokens.antt =====
-- Which tokens `Authenticate` of internal/services/auth accepts.
use tunnel_manager.Prelude.{
  ℕ, ◌+◌, ◌*◌, ◌^◌, ◌≤◌, ◌<◌, ◌≡◌, ◌≢◌, refl, sym, ap, ◌∙◌, inl, inr, true, false, not, [], ◌∷◌,
  none, some, Result, ok, err, sentinel, unauthorized, invalid_credentials, refuse, ◌>>=◌, ◌==◌,
  ==_iff, ltb, arith, Bool-cases, Result-cases, >>=-eq-ok, ok-injective, some_eq, if◌then◌else◌,
}
use mathlib.Core.Path.{subst}
use tunnel_manager.Prelude.Text.{Bytes, codes, text_eq, text_eq_iff}
use tunnel_manager.Prelude.Text.Utf8.{valid_utf8}
use tunnel_manager.Model.{Auth}
use tunnel_manager.Auth.{
  AuthLibrary, AuthService, Users, Surroundings, Claims, second, numeric_date, claims_of, wrapped,
  get_by_username, put, account, rotated, rotate, generate_token, key_function, parse_token, login,
  authenticate, check_password, change_password,
}
use tunnel_manager.Auth.Password.{
  IsAccounts, wrapped-eq-ok, account-eq-ok, get_by_username-eq-ok, update-cases,
}

-- The claims that survive the encoding as JSON: the name is UTF-8, the version fits an int64, and the
-- times are whole seconds that a float64 holds.
pub record IsEncodable (c : Claims) : Type 0 where
  pub subject : valid_utf8 c.subject ≡ true
  pub version : c.token_version < 2 ^ 63
  pub issued : (k : ℕ) × (c.issued_at ≡ k * second) × (k < 2 ^ 53)
  pub expires : (k : ℕ) × (c.expires_at ≡ k * second) × (k < 2 ^ 53)

-- What golang-jwt documents: a text that was signed with the key that the key function gives is
-- parsed to its claims, if they can be encoded, before it expires.
pub record IsSigned (lib : AuthLibrary) : Type 0 where
  pub verifies :
      (secret token : Bytes) (c : Claims) (now : ℕ)
      → lib.sign secret c ≡ ok token
      → IsEncodable c
      → now < c.expires_at
      → lib.parse_with_claims (key_function secret) (codes "HS256" ∷ []) true now token
        ≡ ok (true, c)

not_empty-text_eq : (u : Bytes) → u ≢ [] → text_eq u [] ≡ false
not_empty-text_eq u h = elim (Bool-cases (text_eq u [])) [
  | inl e ↦ absurd (h ((text_eq_iff u []).0 e))
  | inr e ↦ e
]

parse_token-generate_token :
    (lib : AuthLibrary) (secret username token : Bytes) (version signed_at ttl expires_at now : ℕ)
    → IsSigned lib
    → generate_token lib secret username version signed_at ttl ≡ ok (token, expires_at)
    → username ≢ []
    → 1 ≤ version
    → IsEncodable (claims_of username version signed_at ttl)
    → now < numeric_date expires_at
    → parse_token lib secret now token ≡ ok (username, version)
unfolding generate_token parse_token claims_of
parse_token-generate_token lib secret username token version signed_at ttl expires_at now laws e
      named versioned encodable before =
    let c = claims_of username version signed_at ttl in
    let (t, signed, e₁) = >>=-eq-ok (wrapped (codes "jwt: sign token") (lib.sign secret c)) _ e in
    let same = ok-injective e₁ in
    let token_is : t ≡ token = ap (λ (x : Bytes × ℕ). x.0) same in
    let expires : signed_at + ttl ≡ expires_at = ap (λ (x : Bytes × ℕ). x.1) same in
    let signed' : lib.sign secret c ≡ ok token =
      wrapped-eq-ok (codes "jwt: sign token") (lib.sign secret c) signed ∙ ap ok token_is in
    let read =
      laws.verifies secret token c now signed' encodable
        (subst (λ t. now < numeric_date t) (sym expires) before) in
    let positive : ltb version 1 ≡ false = ground arith in
    simp (read, not_empty-text_eq username named, positive)

-- Whether an account's version decides on a token that parses.
authenticate_current :
    (lib : AuthLibrary) (s : AuthService) (users : Users) (now version : ℕ) (token username : Bytes)
    (a : Auth)
    → parse_token lib s.secret now token ≡ ok (username, version)
    → users username ≡ some a
    → authenticate lib s users none now token
      ≡ (if a.token_version == version then ok username else err (sentinel unauthorized))
unfolding authenticate get_by_username
authenticate_current lib s users now version token username a parsed there =
    elim (Bool-cases (a.token_version == version)) [
      | inl same ↦ simp (parsed, there, same)
      | inr other ↦ simp (parsed, there, other)
    ]

-- With a token library that verifies what it signed, a well-formed table, and claims that can be
-- encoded: a token that `Login` gives is accepted, as the name that logged in, until the last whole
-- second that is not after the expiry that it gives.
pub authenticate-login :
    (lib : AuthLibrary) (s : AuthService) (users : Users) (username password token : Bytes)
    (signed_at expires_at now : ℕ)
    → IsSigned lib
    → IsAccounts users
    → ((a : Auth)
        → users username ≡ some a
        → IsEncodable (claims_of a.username a.token_version signed_at s.ttl))
    → login lib s users none username password signed_at ≡ ok (token, expires_at)
    → now < numeric_date expires_at
    → authenticate lib s users none now token ≡ ok username
unfolding login
authenticate-login lib s users username password token signed_at expires_at now laws table encodable
      e before =
    let (a, got, e₁) =
      >>=-eq-ok
        (account invalid_credentials (codes "authservice: get user")
          (get_by_username users none username))
        _ e in
    let (_, _, e₂) =
      >>=-eq-ok (refuse (not (lib.compare a.password password)) (sentinel invalid_credentials)) _
        e₁ in
    let there = get_by_username-eq-ok users none username (
      account-eq-ok invalid_credentials (codes "authservice: get user")
        (get_by_username users none username) got) in
    let k = table username a there in
    let parsed =
      parse_token-generate_token lib s.secret a.username token a.token_version signed_at s.ttl
        expires_at now laws (wrapped-eq-ok (codes "authservice: generate token") _ e₂)
        (subst (λ u. u ≢ []) (sym k.named) k.not_empty) k.versioned (encodable a there) before in
    authenticate_current lib s users now a.token_version token username a
      (parsed ∙ ap (λ u. ok (u, a.token_version)) k.named) there
    ∙ simp ((==_iff a.token_version a.token_version).1 refl)

put_there :
    (users : Users) (a : Auth) (username : Bytes)
    → a.username ≡ username
    → put users a username ≡ some a
unfolding put
put_there users a username e = simp ((text_eq_iff a.username username).1 e)

-- What a successful change leaves, and that its token is signed for the next version.
change_password-signed :
    (lib : AuthLibrary) (s : AuthService) (w : Surroundings) (users : Users)
    (username current_password new_password : Bytes) {token : Bytes} {expires_at : ℕ} (a : Auth)
    → a.username ≡ username
    → users username ≡ some a
    → (change_password lib s w users username current_password new_password).1
      ≡ ok (token, expires_at)
    → (hash : Bytes) × ((change_password lib s w users username current_password new_password).0
        ≡ put users (rotated a hash w.written_at))
      × (generate_token lib s.secret a.username (a.token_version + 1) w.signed_at s.ttl
          ≡ ok (token, expires_at))
unfolding change_password rotate
change_password-signed lib s w users username current_password new_password {token} {expires_at} a
      named there e =
    let looked_up : Result Auth =
      account invalid_credentials (codes "authservice: change password: get user")
        (get_by_username users w.get_fault username) in
    let checks : Result (Auth × Bytes) = looked_up >>= λ auth.
    check_password lib auth current_password new_password >>= λ _.
    wrapped (codes "authservice: change password: hash password") (lib.generate w.salt new_password)
    >>= λ hash. ok (auth, hash) in
    elim (Result-cases checks) [
      | inr (d, failed) ↦ cc (rw failed at e)
      | inl ((auth, hash), passed) ↦
          let (auth', got, e₁) = >>=-eq-ok looked_up _ passed in
          let (_, _, e₂) =
            >>=-eq-ok (check_password lib auth' current_password new_password) _ e₁ in
          let (_, _, e₃) =
            >>=-eq-ok
              (wrapped (codes "authservice: change password: hash password")
                (lib.generate w.salt new_password))
              _ e₂ in
          let stored = get_by_username-eq-ok users w.get_fault username (
            account-eq-ok invalid_credentials (codes "authservice: change password: get user")
              (get_by_username users w.get_fault username) got) in
          let same : auth ≡ a =
            sym (ap (λ (x : Auth × Bytes). x.0) (ok-injective e₃)) ∙ some_eq (sym stored ∙ there) in
          elim (update-cases users w.update_fault (rotated auth hash w.written_at)) [
            | inr (d, failed) ↦ cc (rw (passed, failed) at e)
            | inl done ↦
                let signed =
                  wrapped-eq-ok (codes "authservice: change password: generate token") _
                    (rw (passed, done) at e) in
                (
                  hash,
                  rw (passed, done) (ap (λ x. put users (rotated x hash w.written_at)) same),
                  subst
                      (λ x.
                        generate_token lib s.secret x.username (x.token_version + 1) w.signed_at
                          s.ttl
                        ≡ ok (token, expires_at))
                      same signed,
                )
          ]
    ]

-- With a token library that verifies what it signed, a well-formed table, and claims that can be
-- encoded: after a change of a password, every token of the account's versions so far is refused, at
-- any time, and the token that the change gave is accepted until the last whole second that is not
-- after the expiry that it gives.
pub authenticate-change_password :
    (lib : AuthLibrary) (s : AuthService) (w : Surroundings) (users : Users)
    (username current_password new_password token : Bytes) (expires_at : ℕ) (a : Auth)
    → IsSigned lib
    → IsAccounts users
    → users username ≡ some a
    → IsEncodable (claims_of a.username (a.token_version + 1) w.signed_at s.ttl)
    → (change_password lib s w users username current_password new_password).1
      ≡ ok (token, expires_at)
    → ((now version : ℕ) (old : Bytes)
        → parse_token lib s.secret now old ≡ ok (username, version)
        → version ≤ a.token_version
        → authenticate lib s
            (change_password lib s w users username current_password new_password).0
            none
            now
            old
          ≡ err (sentinel unauthorized))
      × ((now : ℕ)
          → now < numeric_date expires_at
          → authenticate lib s
              (change_password lib s w users username current_password new_password).0
              none
              now
              token
            ≡ ok username)
authenticate-change_password lib s w users username current_password new_password token expires_at a
      laws table there encodable e =
    let users' = (change_password lib s w users username current_password new_password).0 in
    let (hash, written, signed) =
      change_password-signed lib s w users username current_password new_password a
        (table username a there).named there e in
    let b = rotated a hash w.written_at in
    let k = table username a there in
    let now_there : users' username ≡ some b =
      ap (λ (u : Users). u username) written ∙ put_there users b username k.named in
    (
      λ now version old parsed older.
          let differs : (b.token_version == version) ≡ false =
            ground (arith, ==_iff (a.token_version + 1) version) in
          authenticate_current lib s users' now version old username b parsed now_there
          ∙ simp differs,
      λ now before.
          let parsed =
            parse_token-generate_token lib s.secret a.username token (a.token_version + 1)
              w.signed_at s.ttl expires_at now laws signed
              (subst (λ u. u ≢ []) (sym k.named) k.not_empty) (omega arith) encodable before in
          authenticate_current lib s users' now (a.token_version + 1) token username b
            (parsed ∙ ap (λ u. ok (u, a.token_version + 1)) k.named) now_there
          ∙ simp ((==_iff (a.token_version + 1) (a.token_version + 1)).1 refl),
    )
