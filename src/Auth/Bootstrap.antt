-- ===== src/Auth/Bootstrap.antt =====
-- What the first start does to the table of accounts.
use tunnel_manager.Prelude.{
  ◌≡◌, ◌≢◌, refl, sym, ◌⊎◌, inl, inr, [], Option, none, some, Result, ok, err, Error, external,
  arith, Bool-cases, Result-cases, Option-cases, errors_is,
}
use tunnel_manager.Prelude.{Sentinel}
use mathlib.Core.Path.{subst}
use tunnel_manager.Prelude.Text.{Bytes, codes}
use tunnel_manager.Model.{Auth}
use tunnel_manager.Auth.{
  AuthLibrary, AuthService, Users, Surroundings, get_by_username, put, create, change_password,
  bootstrap, first_account, add_admin,
}
use tunnel_manager.Auth.Password.{
  IsAccounts, put-IsAccounts, get_by_username-eq-ok, change_password-IsAccounts,
}

abbrev taken : Error
taken = external (codes "constraint failed: UNIQUE constraint failed: auths.username")

create-cases :
    (users : Users) (fault : Option Error) (a : Auth)
    → ((users a.username ≡ none) × (create users fault a ≡ (put users a, ok tt)))
      ⊎ ((e : Error) × (create users fault a ≡ (users, err e)))
unfolding create
create-cases users (some e) a = inr (e, refl)
create-cases users none a = elim (Option-cases (users a.username)) [
  | inl missing ↦ inl (missing, rw missing refl)
  | inr (b, there) ↦ inr (taken, rw there refl)
]

-- The first start added the administrator's account, with the hash of the configured password and
-- version one, to a table that did not have it.
pub record Adds (lib : AuthLibrary) (s : AuthService) (w : Surroundings) (users users' : Users)
    : Type 0 where
  pub hash : Bytes
  pub absent : users s.admin_username ≡ none
  pub hashed : lib.generate w.salt s.admin_password ≡ ok hash
  pub written : users' ≡ put users (first_account s w hash)

-- What a first start may have done.
abbrev pub Bootstrapped :
    AuthLibrary → AuthService → Surroundings → Users → Users × Result (Unit {0}) → Type 0
Bootstrapped lib s w users r =
    ((r.0 ≡ users) × (r.1 ≡ ok tt → (a : Auth) × (users s.admin_username ≡ some a)))
    ⊎ (Adds lib s w users r.0 × (r.1 ≡ ok tt))

add_admin-Bootstrapped :
    (lib : AuthLibrary) (s : AuthService) (w : Surroundings) (users : Users)
    → Bootstrapped lib s w users (add_admin s w users (lib.generate w.salt s.admin_password))
add_admin-Bootstrapped lib s w users = elim (Result-cases (lib.generate w.salt s.admin_password)) [
  | inr (e, failed) ↦ rw failed (inl (refl, λ done. cc done))
  | inl (hash, made) ↦ elim (create-cases users w.update_fault (first_account s w hash)) [
    | inr (e, failed) ↦ rw (made, failed) (inl (refl, λ done. cc done))
    | inl (absent, done) ↦
        rw (made, done)
          (inr (record { hash = hash; absent = absent; hashed = made; written = refl }, refl))
  ]
]

-- `Bootstrap` either leaves the table as it was, and then succeeds only if the administrator's
-- account is in it, or it adds that account to a table without it, at version one, and succeeds.
pub bootstrap-Bootstrapped :
    (lib : AuthLibrary) (s : AuthService) (w : Surroundings) (users : Users)
    → Bootstrapped lib s w users (bootstrap lib s w users)
unfolding bootstrap
bootstrap-Bootstrapped lib s w users =
    elim (Result-cases (get_by_username users w.get_fault s.admin_username)) [
      | inl (a, got) ↦
          rw got
            (inl (refl, λ _. (a, get_by_username-eq-ok users w.get_fault s.admin_username got)))
      | inr (e, missed) ↦ elim (Bool-cases (errors_is e Sentinel.not_found)) [
        | inl missing ↦ rw (missed, missing) (add_admin-Bootstrapped lib s w users)
        | inr other ↦ rw (missed, other) (inl (refl, λ done. cc done))
      ]
    ]

-- The table of accounts stays well formed under both operations that write to it, if the
-- administrator's name is not empty.
pub writes-IsAccounts :
    (lib : AuthLibrary) (s : AuthService) (w : Surroundings) (users : Users)
    (username current_password new_password : Bytes)
    → IsAccounts users
    → s.admin_username ≢ []
    → IsAccounts (change_password lib s w users username current_password new_password).0
      × IsAccounts (bootstrap lib s w users).0
writes-IsAccounts lib s w users username current_password new_password h admin = (
  change_password-IsAccounts lib s w users username current_password new_password h,
  elim (bootstrap-Bootstrapped lib s w users) [
    | inl (same, _) ↦ subst IsAccounts (sym same) h
    | inr (added, _) ↦ subst IsAccounts (sym added.written) (
        put-IsAccounts users (first_account s w added.hash) h
          (record { named = refl; not_empty = admin; versioned = omega arith }))
  ],
)
