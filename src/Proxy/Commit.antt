-- ===== src/Proxy/Commit.antt =====
-- The two phases of an update of routes in internal/pkg/ingressproxy.
use tunnel_manager.Prelude.{
  ◌≡◌, refl, inl, inr, true, List, [], ◌∷◌, ◌++◌, ok, external, refuse, ◌>>=◌, ◌>>◌, >>=-eq-ok,
  Bool-cases, Result-cases,
}
use tunnel_manager.Prelude.Text.{Bytes, codes, text_eq}
use tunnel_manager.Model.{DomainRoute}
use tunnel_manager.Proxy.{
  NetLibrary, ProxyServer, check_target, checked_routes, install, normalize_hostname, strips,
  strips_unless, merged, prepare_domain, commit_domain,
}

-- Whether the check of the routes succeeds.
abbrev Passes : NetLibrary → Bytes → List DomainRoute → Type 0
Passes net addr rs = (kept : List DomainRoute) × (checked_routes net addr rs ≡ ok kept)

module _ (net : NetLibrary) (addr : Bytes) where
  checked_cons :
      (r : DomainRoute) (rs kept : List DomainRoute)
      → r.strip_prefix ≡ true
      → checked_routes net addr (r ∷ rs) ≡ ok kept
      → (check_target net addr r ≡ ok tt) × Passes net addr rs
  unfolding checked_routes
  checked_cons r rs kept taken e =
      let e' : (check_target net addr r >>= λ _.
      checked_routes net addr rs >>= λ rest. ok (r ∷ rest))
          ≡ ok kept =
        simp taken at e in
      let (_, e₁, e₂) =
        >>=-eq-ok (check_target net addr r)
          (λ _. checked_routes net addr rs >>= λ rest. ok (r ∷ rest)) e' in
      let (rest, e₃, _) = >>=-eq-ok (checked_routes net addr rs) (λ rest. ok (r ∷ rest)) e₂ in
      (e₁, (rest, e₃))

  Passes-cons :
      (r : DomainRoute) (rs : List DomainRoute)
      → (r.strip_prefix ≡ true → check_target net addr r ≡ ok tt)
      → Passes net addr rs
      → Passes net addr (r ∷ rs)
  unfolding checked_routes
  Passes-cons r rs target (kept, e) = elim (Bool-cases r.strip_prefix) [
    | inl taken ↦ (r ∷ kept, simp (taken, target taken, e))
    | inr plain ↦ (kept, simp (plain, e))
  ]

  Passes-append : (rs ss : List DomainRoute) → Passes net addr (rs ++ ss) → Passes net addr rs
  unfolding checked_routes
  Passes-append [] ss h = ([], refl)
  Passes-append (r ∷ rs) ss (kept, e) = elim (Bool-cases r.strip_prefix) [
    | inl taken ↦
        let (target, rest) = checked_cons r (rs ++ ss) kept taken e in
        Passes-cons r rs (λ _. target) (Passes-append rs ss rest)
    | inr plain ↦
        Passes-cons r rs (λ taken. cc (taken, plain)) (Passes-append rs ss (kept, simp plain at e))
  ]

  Passes-strips : (rs : List DomainRoute) → Passes net addr (strips rs) → Passes net addr rs
  unfolding strips
  Passes-strips [] h = h
  Passes-strips (r ∷ rs) (kept, e) = elim (Bool-cases r.strip_prefix) [
    | inl taken ↦
        let (target, rest) = checked_cons r (strips rs) kept taken (simp taken at e) in
        Passes-cons r rs (λ _. target) (Passes-strips rs rest)
    | inr plain ↦
        Passes-cons r rs (λ taken. cc (taken, plain)) (Passes-strips rs (kept, simp plain at e))
  ]

-- What `PrepareDomain` accepted for the old routes and the new, `CommitDomain` accepts for the new.
pub commit_domain-prepare_domain :
    (net : NetLibrary) (p : ProxyServer) (domain_id hostname : Bytes)
    (old_routes new_routes : List DomainRoute)
    → (prepare_domain net p domain_id hostname old_routes new_routes).1 ≡ ok tt
    → (commit_domain net
        (prepare_domain net p domain_id hostname old_routes new_routes).0
        domain_id
        hostname
        new_routes).1
      ≡ ok tt
unfolding prepare_domain commit_domain install merged
commit_domain-prepare_domain net p domain_id hostname old_routes new_routes e =
    let host = normalize_hostname net hostname in
    let guard = refuse (text_eq host []) (external (codes "ingressproxy: hostname is required")) in
    let both_routes = strips new_routes ++ strips_unless (strips new_routes) old_routes in
    elim (Result-cases (guard >> checked_routes net p.addr both_routes)) [
      | inr (d, failed) ↦ cc (rw failed at e)
      | inl (rs, passed) ↦
          let (_, named, checked) =
            >>=-eq-ok guard (λ _. checked_routes net p.addr both_routes) passed in
          let (kept, again) = Passes-strips net p.addr new_routes (
            Passes-append net p.addr (strips new_routes)
              (strips_unless (strips new_routes) old_routes) (rs, checked)) in
          rw (passed, named, again) refl
    ]

pub prepare_domain-addr :
    (net : NetLibrary) (p : ProxyServer) (domain_id hostname : Bytes)
    (old_routes new_routes : List DomainRoute)
    → (prepare_domain net p domain_id hostname old_routes new_routes).0.addr ≡ p.addr
unfolding prepare_domain install
prepare_domain-addr net p domain_id hostname old_routes new_routes =
    let host = normalize_hostname net hostname in
    let checks =
      refuse (text_eq host []) (external (codes "ingressproxy: hostname is required"))
      >> checked_routes net p.addr (merged old_routes new_routes) in
    elim (Result-cases checks) [
      | inl (rs, passed) ↦ rw passed refl
      | inr (e, failed) ↦ rw failed refl
    ]
