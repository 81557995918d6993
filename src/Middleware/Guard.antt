-- ===== src/Middleware/Guard.antt =====
-- What a request that passes has shown.
use tunnel_manager.Prelude.{
  ◌≡◌, ◌≢◌, refl, ap, ◌∙◌, ◌⊎◌, inl, inr, false, not, ◌&&◌, ◌||◌, [], some, Result, ok, Bool-cases,
  Result-cases, Option-cases,
}
use tunnel_manager.Prelude.Text.{Bytes, text_eq, text_eq_iff}
use tunnel_manager.Middleware.{
  ApiRequest, Source, bearer, cookie, passed, authentication_token, safe_method, is_cookie,
  jwt_auth,
}

-- A token of the request that the service accepts as the name, and for one from a cookie on a
-- method that changes state, an origin that is the allowed one.
pub record Admits (authenticate : Bytes → Result Bytes) (allowed : Bytes) (r : ApiRequest)
    (username : Bytes) (source : Source) : Type 0 where
  pub token : Bytes
  pub found : authentication_token r ≡ some (token, source)
  pub accepted : authenticate token ≡ ok username
  pub same_origin :
      source ≡ cookie → safe_method r.verb ≡ false → (allowed ≢ []) × (r.origin ≡ allowed)

source_cases : (s : Source) → (s ≡ bearer) ⊎ (s ≡ cookie)
source_cases bearer = inl refl
source_cases cookie = inr refl

passed_same : {n m : Bytes} {s t : Source} → passed n s ≡ passed m t → (n ≡ m) × (s ≡ t)
passed_same e = (cc, cc)

origin_checked :
    (origin allowed : Bytes)
    → (text_eq allowed [] || not (text_eq origin allowed)) ≡ false
    → (allowed ≢ []) × (origin ≡ allowed)
origin_checked origin allowed h = elim (Bool-cases (text_eq allowed [])) [
  | inl empty ↦ cc (rw empty at h)
  | inr full ↦ elim (Bool-cases (text_eq origin allowed)) [
    | inl same ↦ (λ e. cc ((text_eq_iff allowed []).1 e, full), (text_eq_iff origin allowed).0 same)
    | inr other ↦ cc (rw (full, other) at h)
  ]
]

-- A request reaches the handler only with a token that is accepted; with a cookie, and a method
-- other than GET, HEAD and OPTIONS, only from the allowed origin, which is set then.
pub jwt_auth-Admits :
    (authenticate : Bytes → Result Bytes) (allowed : Bytes) (r : ApiRequest) (username : Bytes)
    (source : Source)
    → jwt_auth authenticate allowed r ≡ passed username source
    → Admits authenticate allowed r username source
unfolding jwt_auth
jwt_auth-Admits authenticate allowed r username source e =
    elim (Option-cases (authentication_token r)) [
      | inl missing ↦ cc (rw missing at e)
      | inr ((token, from), found) ↦ elim (Result-cases (authenticate token)) [
        | inr (d, failed) ↦ cc (rw (found, failed) at e)
        | inl (name, accepted) ↦
            elim (Bool-cases (
              is_cookie from
              && not (safe_method r.verb)
              && (text_eq allowed [] || not (text_eq r.origin allowed)))) [
                | inl bad ↦ cc (rw (found, accepted, bad) at e)
                | inr good ↦
                    let (same_name, same_source) = passed_same (rw (found, accepted, good) at e) in
                    record {
                      token = token;
                      found = found ∙ ap (λ x. some (token, x)) same_source;
                      accepted = accepted ∙ ap ok same_name;
                      same_origin = λ is_cookie' unsafe.
                          origin_checked r.origin allowed
                            (rw (same_source ∙ is_cookie', unsafe) at good);
                    }
              ]
      ]
    ]
