-- ===== src/Prelude/Results.antt =====
-- Go errors as values: the sentinels that the program tells apart by `errors.Is`, errors of code
-- outside the repository, and the three ways in which `fmt.Errorf` wraps them.
use mathlib.Core.Path.{◌≡◌, refl, ap}
use mathlib.Core.Logic.{◌⊎◌, inl, inr}
use mathlib.Core.Bool.{Bool, true, false, ◌||◌}
use mathlib.Core.List.{◌++◌}
use tunnel_manager.Prelude.Text.{Bytes, codes}

pub data Sentinel : Type 0 where
  not_found invalid_zone cloudflare_unavailable invalid_routes : Sentinel
  invalid_password same_password unauthorized invalid_credentials process_done : Sentinel

pub data Error : Type 0 where
  sentinel : Sentinel → Error
  external : Bytes → Error
  wrap : Bytes → Error → Error
  detail : Error → Bytes → Error
  both : Error → Bytes → Error → Error

abbrev pub same_sentinel : Sentinel → Sentinel → Bool
same_sentinel not_found not_found = true
same_sentinel invalid_zone invalid_zone = true
same_sentinel cloudflare_unavailable cloudflare_unavailable = true
same_sentinel invalid_routes invalid_routes = true
same_sentinel invalid_password invalid_password = true
same_sentinel same_password same_password = true
same_sentinel unauthorized unauthorized = true
same_sentinel invalid_credentials invalid_credentials = true
same_sentinel process_done process_done = true
same_sentinel _ _ = false

-- `errors.Is(err, sentinel)`: the sentinel stands somewhere in the chain.
abbrev pub errors_is : Error → Sentinel → Bool
errors_is (sentinel t) s = same_sentinel t s
errors_is (external m) s = false
errors_is (wrap m e) s = errors_is e s
errors_is (detail e m) s = errors_is e s
errors_is (both e m f) s = errors_is e s || errors_is f s

sentinel_text : Sentinel → Bytes
sentinel_text not_found = codes "model: not found"
sentinel_text invalid_zone = codes "domainservice: invalid Cloudflare zone"
sentinel_text cloudflare_unavailable = codes "domainservice: Cloudflare unavailable"
sentinel_text invalid_routes = codes "domainservice: invalid routes"
sentinel_text invalid_password = codes "authservice: password must contain 12 to 72 bytes"
sentinel_text same_password = codes "authservice: new password must differ from current password"
sentinel_text unauthorized = codes "authservice: unauthorized"
sentinel_text invalid_credentials = codes "authservice: invalid credentials"
sentinel_text process_done = codes "os: process already finished"

-- `err.Error()`.
unfoldable pub error_text : Error → Bytes
unfolding sentinel_text
error_text (sentinel s) = sentinel_text s
error_text (external m) = m
error_text (wrap m e) = m ++ (codes ": " ++ error_text e)
error_text (detail e m) = error_text e ++ (codes ": " ++ m)
error_text (both e m f) = error_text e ++ (codes ": " ++ (m ++ (codes ": " ++ error_text f)))

pub data Result {ℓ} (A : Type ℓ) : Type ℓ where
  ok : A → Result A
  err : Error → Result A

pub Result-cases {ℓ} :
    {A : Type ℓ} (r : Result A) → ((a : A) × (r ≡ ok a)) ⊎ ((e : Error) × (r ≡ err e))
Result-cases (ok a) = inl (a, refl)
Result-cases (err e) = inr (e, refl)

-- `if bad { return err }`.
abbrev pub refuse : Bool → Error → Result (Unit {0})
refuse true e = err e
refuse false e = ok tt

infixl 5 ◌>>=◌ ◌>>◌
abbrev pub ◌>>=◌ {ℓ κ} : {A : Type ℓ} {B : Type κ} (r : Result A) (k : A → Result B) → Result B
err e >>= k = err e
ok a >>= k = k a

abbrev pub ◌>>◌ {κ} : {B : Type κ} (r : Result (Unit {0})) (s : Result B) → Result B
r >> s = r >>= λ _. s

-- The two successes behind one.
pub >>=-eq-ok {ℓ κ} :
    {B : Type κ} {A : Type ℓ} (r : Result A) (k : A → Result B) {c : B}
    → (r >>= k) ≡ ok c
    → (a : A) × (r ≡ ok a) × (k a ≡ ok c)
>>=-eq-ok (err e) k h = cc
>>=-eq-ok (ok a) k h = (a, refl, h)

pub refuse-eq-ok : (b : Bool) (e : Error) → refuse b e ≡ ok tt → b ≡ false
refuse-eq-ok true e h = cc
refuse-eq-ok false e h = refl

pub ok-injective {ℓ} : {A : Type ℓ} {a b : A} → ok a ≡ ok b → a ≡ b
ok-injective e = cc

-- The error of a result, or `e`.
abbrev error_or {ℓ} : {A : Type ℓ} → Error → Result A → Error
error_or e (ok a) = e
error_or e (err d) = d

pub err-injective {ℓ} : {A : Type ℓ} {d e : Error} → ◌≡◌ {A = Result A} (err d) (err e) → d ≡ e
err-injective {e} p = ap (error_or e) p
