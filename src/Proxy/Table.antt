-- ===== src/Proxy/Table.antt =====
-- What `CommitDomain` of internal/pkg/ingressproxy does to the tables.
use tunnel_manager.Prelude.{
  ◌≡◌, refl, ap, sym, ◌∙◌, ◌⊎◌, inl, inr, false, List, [], ◌∷◌, Option, none, some, Result, ok, err,
  Error, arith, Bool-cases, Result-cases, if◌then◌else◌, ◌>>=◌, ◌>>◌, refuse, external, >>=-eq-ok,
  ok-injective,
}
use tunnel_manager.Prelude.Text.{Bytes, codes, text_eq, text_eq_iff, text_eq_refl}
use tunnel_manager.Prelude.Text.Order.{sort}
use tunnel_manager.Model.{DomainRoute}
use tunnel_manager.Proxy.{
  NetLibrary, DomainSnapshot, ProxyServer, new, rebuild, rebuild_locked, without,
  normalize_hostname, check_target, checked_routes, install, strips, commit_domain,
}

unfoldable pub lookup : Bytes → List (Bytes × DomainSnapshot) → Option DomainSnapshot
lookup k [] = none
lookup k ((j, d) ∷ rest) = if text_eq j k then some d else lookup k rest

pub lookup-without :
    (k j : Bytes) (l : List (Bytes × DomainSnapshot))
    → lookup j (without k l) ≡ (if text_eq k j then none else lookup j l)
unfolding lookup without
lookup-without k j [] = ground arith
lookup-without k j ((i, d) ∷ l) =
    ground (arith, lookup-without k j l, text_eq_iff i k, text_eq_iff i j, text_eq_iff k j)

-- The map that requests read is the one built from the domains.
abbrev pub IsBuilt : ProxyServer → Type 0
IsBuilt p = (host : Bytes) → p.routes host ≡ rebuild p.by_domain host

pub new-IsBuilt : (addr : Bytes) → IsBuilt (new addr)
unfolding new rebuild sort
new-IsBuilt addr host = refl

checked_routes-strips :
    (net : NetLibrary) (addr : Bytes) (routes rs : List DomainRoute)
    → checked_routes net addr routes ≡ ok rs
    → rs ≡ strips routes
unfolding checked_routes strips
checked_routes-strips net addr [] rs e = sym (ok-injective e)
checked_routes-strips net addr (r ∷ routes) rs e = elim (Bool-cases r.strip_prefix) [
  | inr kept ↦ simp kept (checked_routes-strips net addr routes rs (simp kept at e))
  | inl taken ↦
      let e' : (check_target net addr r >>= λ _.
      checked_routes net addr routes >>= λ rest. ok (r ∷ rest))
          ≡ ok rs =
        simp taken at e in
      let (_, _, e₁) =
        >>=-eq-ok (check_target net addr r)
          (λ _. checked_routes net addr routes >>= λ rest. ok (r ∷ rest)) e' in
      let (rest, e₂, e₃) = >>=-eq-ok (checked_routes net addr routes) (λ rest. ok (r ∷ rest)) e₁ in
      simp taken
        (sym (ok-injective e₃) ∙ ap (λ x. r ∷ x) (checked_routes-strips net addr routes rest e₂))
]

-- What an accepted update leaves: the domain's entry, the other entries, and a map that is built.
pub record Installs (p p' : ProxyServer) (domain_id hostname : Bytes) (routes : List DomainRoute)
    : Type 0 where
  pub entry :
      lookup domain_id p'.by_domain ≡ some (record { hostname = hostname; routes = strips routes })
  pub others :
      (j : Bytes) → text_eq domain_id j ≡ false → lookup j p'.by_domain ≡ lookup j p.by_domain
  pub same_addr : p'.addr ≡ p.addr
  pub built : IsBuilt p'

install-Installs :
    (net : NetLibrary) (p : ProxyServer) (domain_id hostname : Bytes) (routes rs : List DomainRoute)
    → rs ≡ strips routes
    → Installs p (install net p domain_id hostname (ok rs)).0 domain_id hostname routes
unfolding install rebuild_locked lookup
install-Installs net p domain_id hostname routes rs e = record {
  entry = rw (text_eq_refl domain_id, e);
  others = λ j other. rw other (lookup-without domain_id j p.by_domain ∙ rw other);
  same_addr = refl;
  built = λ host. refl;
}

-- An update either stores exactly the domain's prefix-stripping routes under its normalised
-- hostname, keeps the other domains and rebuilds the map, or fails and changes nothing.
pub commit_domain-Installs :
    (net : NetLibrary) (p : ProxyServer) (domain_id hostname : Bytes) (routes : List DomainRoute)
    → ((commit_domain net p domain_id hostname routes).1 ≡ ok tt
        × Installs p
            (commit_domain net p domain_id hostname routes).0
            domain_id
            (normalize_hostname net hostname)
            routes)
      ⊎ ((e : Error) × (commit_domain net p domain_id hostname routes ≡ (p, err e)))
unfolding commit_domain install
commit_domain-Installs net p domain_id hostname routes =
    let host = normalize_hostname net hostname in
    let checks : Result (List DomainRoute) =
      refuse (text_eq host []) (external (codes "ingressproxy: hostname is required"))
      >> checked_routes net p.addr routes in
    elim (Result-cases checks) [
      | inr (e, failed) ↦ inr (e, rw failed)
      | inl (rs, passed) ↦
          let (_, _, e) =
            >>=-eq-ok
              (refuse (text_eq host []) (external (codes "ingressproxy: hostname is required")))
              (λ _. checked_routes net p.addr routes) passed in
          inl (
            rw passed (
              refl,
              install-Installs net p domain_id host routes rs
                  (checked_routes-strips net p.addr routes rs e),
            ))
    ]
