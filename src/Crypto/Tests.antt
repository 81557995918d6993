-- ===== src/Crypto/Tests.antt =====
-- The round trip with a toy cipher that leaves the plaintext as it is.
use tunnel_manager.Prelude.{
  ◌≡◌, refl, ◌⊎◌, inl, inr, ok, err, external, ◌==◌, ==_iff, length, Bool-cases, if◌then◌else◌,
}
use tunnel_manager.Prelude.Text.{Bytes, codes}
use tunnel_manager.Crypto.{CipherLibrary, encrypt, decrypt}
use tunnel_manager.Crypto.RoundTrip.{IsCipher, decrypt-encrypt}

abbrev plain : CipherLibrary
plain = record {
  new_cipher = λ k. if length k == 32 then ok tt else err (external (codes "invalid key size"));
  new_gcm = λ k. ok tt;
  nonce_size = 2;
  seal = λ k n p. p;
  open_seal = λ k n s. ok s;
  encode = λ s. s;
  decode = λ s. ok s;
}

key_of_32 :
    (k : Bytes) → plain.new_cipher k ≡ ok tt → (length k ≡ 16) ⊎ ((length k ≡ 24) ⊎ (length k ≡ 32))
key_of_32 k e = elim (Bool-cases (length k == 32)) [
  | inl same ↦ inr (inr ((==_iff (length k) 32).0 same))
  | inr other ↦ cc (rw other at e)
]

plain-IsCipher : IsCipher plain
plain-IsCipher = record {
  key_sizes = key_of_32;
  opens = λ key nonce plaintext e. refl;
  decodes = λ s. refl;
}

abbrev key : Bytes
key = codes "0123456789abcdef0123456789abcdef"

encrypted : encrypt plain (ok (codes "nn")) key (codes "token") ≡ ok (codes "nntoken")
unfolding encrypt
encrypted = refl

decrypt-encrypt_example :
    (length key ≡ 32) × (decrypt plain key (codes "nntoken") ≡ ok (codes "token"))
decrypt-encrypt_example =
    decrypt-encrypt plain (codes "nn") key (codes "token") (codes "nntoken") plain-IsCipher refl
      encrypted
