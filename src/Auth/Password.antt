-- ===== src/Auth/Password.antt =====
-- What a change of a password does to the table of accounts.
use tunnel_manager.Prelude.{
  ℕ, ◌≤◌, ◌≡◌, ◌≢◌, refl, sym, ap, ◌⊎◌, inl, inr, true, false, not, ◌||◌, [], Option, none, some,
  Result, ok, err, Error, wrap, sentinel, invalid_password, invalid_credentials, refuse, ◌>>=◌, ltb,
  length, arith, Bool-cases, Result-cases, Option-cases, >>=-eq-ok, refuse-eq-ok, ok-injective,
  some_eq, errors_is,
}
use tunnel_manager.Prelude.{Sentinel}
use mathlib.Core.Path.{subst}
use tunnel_manager.Prelude.Text.{Bytes, codes, text_eq, text_eq_iff}
use tunnel_manager.Model.{Auth}
use tunnel_manager.Auth.{
  AuthLibrary, AuthService, Users, Surroundings, wrapped, get_by_username, put, update, account,
  rotated, rotate, check_password, change_password,
}

-- The table is by username, no username is empty, and the versions begin at one.
pub record IsAccount (username : Bytes) (a : Auth) : Type 0 where
  pub named : a.username ≡ username
  pub not_empty : username ≢ []
  pub versioned : 1 ≤ a.token_version

abbrev pub IsAccounts : Users → Type 0
IsAccounts users = (username : Bytes) (a : Auth) → users username ≡ some a → IsAccount username a

pub wrapped-eq-ok {ℓ} :
    {A : Type ℓ} (m : Bytes) (r : Result A) {a : A} → wrapped m r ≡ ok a → r ≡ ok a
wrapped-eq-ok m (ok b) e = e
wrapped-eq-ok m (err d) e = cc

pub account-eq-ok :
    (s : Sentinel) (m : Bytes) (r : Result Auth) {a : Auth} → account s m r ≡ ok a → r ≡ ok a
account-eq-ok s m (ok b) e = e
account-eq-ok s m (err d) e = elim (Bool-cases (errors_is d Sentinel.not_found)) [
  | inl missing ↦ cc (missing, e)
  | inr other ↦ cc (other, e)
]

pub get_by_username-eq-ok :
    (users : Users) (fault : Option Error) (username : Bytes) {a : Auth}
    → get_by_username users fault username ≡ ok a
    → users username ≡ some a
unfolding get_by_username
get_by_username-eq-ok users (some e) username h = cc
get_by_username-eq-ok users none username h = elim (Option-cases (users username)) [
  | inl missing ↦ cc (missing, h)
  | inr (b, there) ↦ cc (there, h)
]

pub put-IsAccounts :
    (users : Users) (a : Auth)
    → IsAccounts users
    → IsAccount a.username a
    → IsAccounts (put users a)
unfolding put
put-IsAccounts users a h k username b e = elim (Bool-cases (text_eq a.username username)) [
  | inr other ↦ h username b (rw other at e)
  | inl same ↦
      let same' = (text_eq_iff a.username username).0 same in
      let at : a ≡ b = some_eq (rw same at e) in
      subst (λ x. IsAccount username x) at (subst (λ u. IsAccount u a) same' k)
]

-- A change of a password that was written: what was asked of the passwords, and the new row.
pub record Changes (lib : AuthLibrary) (w : Surroundings) (users users' : Users)
    (username current_password new_password : Bytes) : Type 0 where
  pub auth : Auth
  pub hash : Bytes
  pub stored : users username ≡ some auth
  pub known : lib.compare auth.password current_password ≡ true
  pub at_least : 12 ≤ length new_password
  pub at_most : length new_password ≤ 72
  pub differs : lib.compare auth.password new_password ≡ false
  pub hashed : lib.generate w.salt new_password ≡ ok hash
  pub written : users' ≡ put users (rotated auth hash w.written_at)

pub update-cases :
    (users : Users) (fault : Option Error) (a : Auth)
    → (update users fault a ≡ (put users a, ok tt))
      ⊎ ((e : Error) × (update users fault a ≡ (users, err e)))
unfolding update
update-cases users (some e) a = inr (e, refl)
update-cases users none a = elim (Option-cases (users a.username)) [
  | inl missing ↦ inr (sentinel Sentinel.not_found, rw missing refl)
  | inr (b, there) ↦ inl (rw there refl)
]

pub record IsChecked (lib : AuthLibrary) (auth : Auth) (current_password new_password : Bytes)
    : Type 0 where
  pub known : lib.compare auth.password current_password ≡ true
  pub at_least : 12 ≤ length new_password
  pub at_most : length new_password ≤ 72
  pub differs : lib.compare auth.password new_password ≡ false

check_password-IsChecked :
    (lib : AuthLibrary) (auth : Auth) (current_password new_password : Bytes)
    → check_password lib auth current_password new_password ≡ ok tt
    → IsChecked lib auth current_password new_password
unfolding check_password
check_password-IsChecked lib auth current_password new_password e =
    let (_, a, e₁) =
      >>=-eq-ok
        (refuse (not (lib.compare auth.password current_password)) (sentinel invalid_credentials)) _
        e in
    let (_, b, e₂) =
      >>=-eq-ok
        (refuse (ltb (length new_password) 12 || ltb 72 (length new_password))
          (sentinel invalid_password))
        _ e₁ in
    let a' = refuse-eq-ok _ _ a in
    let b' = refuse-eq-ok _ _ b in
    record {
      known = ground arith;
      at_least = ground arith;
      at_most = ground arith;
      differs = refuse-eq-ok _ _ e₂;
    }

-- `ChangePassword` either fails with the table as it was, or it has written the new hash and the
-- next version to the account, which then has the current password that was given, and a new one
-- of 12 to 72 bytes that differs; only the signing of the token can fail after that.
pub change_password-Changes :
    (lib : AuthLibrary) (s : AuthService) (w : Surroundings) (users : Users)
    (username current_password new_password : Bytes)
    → ((e : Error) × (change_password lib s w users username current_password new_password
          ≡ (users, err e)))
      ⊎ Changes lib w users
          (change_password lib s w users username current_password new_password).0
          username
          current_password
          new_password
unfolding change_password rotate
change_password-Changes lib s w users username current_password new_password =
    let looked_up : Result Auth =
      account invalid_credentials (codes "authservice: change password: get user")
        (get_by_username users w.get_fault username) in
    let checks : Result (Auth × Bytes) = looked_up >>= λ auth.
    check_password lib auth current_password new_password >>= λ _.
    wrapped (codes "authservice: change password: hash password") (lib.generate w.salt new_password)
    >>= λ hash. ok (auth, hash) in
    elim (Result-cases checks) [
      | inr (e, failed) ↦ inl (e, rw failed refl)
      | inl ((auth, hash), passed) ↦
          let (auth', got, e₁) = >>=-eq-ok looked_up _ passed in
          let (_, checked, e₂) =
            >>=-eq-ok (check_password lib auth' current_password new_password) _ e₁ in
          let (hash', made, e₃) =
            >>=-eq-ok
              (wrapped (codes "authservice: change password: hash password")
                (lib.generate w.salt new_password))
              _ e₂ in
          let is_checked =
            check_password-IsChecked lib auth' current_password new_password checked in
          elim (update-cases users w.update_fault (rotated auth hash w.written_at)) [
            | inr (e, failed) ↦ inl (
              wrap (codes "authservice: change password: update user") e,
              rw (passed, failed) refl,
            )
            | inl done ↦ inr (
                rw (passed, done)
                  (record {
                    auth = auth';
                    hash = hash';
                    stored = get_by_username-eq-ok users w.get_fault username (
                        account-eq-ok invalid_credentials
                          (codes "authservice: change password: get user")
                          (get_by_username users w.get_fault username) got);
                    known = is_checked.known;
                    at_least = is_checked.at_least;
                    at_most = is_checked.at_most;
                    differs = is_checked.differs;
                    hashed =
                        wrapped-eq-ok (codes "authservice: change password: hash password")
                          (lib.generate w.salt new_password) made;
                    written =
                        ap (λ (x : Auth × Bytes). put users (rotated x.0 x.1 w.written_at))
                          (sym (ok-injective e₃));
                  }))
          ]
    ]

pub change_password-IsAccounts :
    (lib : AuthLibrary) (s : AuthService) (w : Surroundings) (users : Users)
    (username current_password new_password : Bytes)
    → IsAccounts users
    → IsAccounts (change_password lib s w users username current_password new_password).0
change_password-IsAccounts lib s w users username current_password new_password h =
    elim (change_password-Changes lib s w users username current_password new_password) [
      | inl (e, failed) ↦ subst (λ (x : Users × Result (Bytes × ℕ)). IsAccounts x.0) (sym failed) h
      | inr c ↦
          let k = h username c.auth c.stored in
          subst IsAccounts (sym c.written) (
            put-IsAccounts users (rotated c.auth c.hash w.written_at) h (record {
              named = refl;
              not_empty = subst (λ u. u ≢ []) (sym k.named) k.not_empty;
              versioned = omega arith;
            }))
    ]
