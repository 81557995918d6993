-- ===== src/Crypto/RoundTrip.antt =====
-- The decryption of what was encrypted.
use tunnel_manager.Prelude.{
  ℕ, ◌≡◌, sym, ap, ◌∙◌, ◌⊎◌, inl, inr, false, ◌++◌, Result, ok, err, external, refuse, ltb, length,
  drop, take, arith, >>=-eq-ok, refuse-eq-ok, ok-injective, length-append, take-append, drop-append,
}
use tunnel_manager.Prelude.Text.{Bytes, codes}
use tunnel_manager.Crypto.{CipherLibrary, wrapped, encrypt, decrypt}

-- What the packages document: AES takes keys of 16, 24 or 32 bytes, an opened seal gives the
-- plaintext, and base64 is read back.
pub record IsCipher (lib : CipherLibrary) : Type 0 where
  pub key_sizes :
      (key : Bytes)
      → lib.new_cipher key ≡ ok tt
      → (length key ≡ 16) ⊎ ((length key ≡ 24) ⊎ (length key ≡ 32))
  pub opens :
      (key nonce plaintext : Bytes)
      → length nonce ≡ lib.nonce_size
      → lib.open_seal key nonce (lib.seal key nonce plaintext) ≡ ok plaintext
  pub decodes : (s : Bytes) → lib.decode (lib.encode s) ≡ ok s

wrapped-eq-ok {ℓ} : {A : Type ℓ} (m : Bytes) (r : Result A) {a : A} → wrapped m r ≡ ok a → r ≡ ok a
wrapped-eq-ok m (ok b) e = e
wrapped-eq-ok m (err d) e = cc

key_is_32 : (n : ℕ) → ltb n 32 ≡ false → (n ≡ 16) ⊎ ((n ≡ 24) ⊎ (n ≡ 32)) → n ≡ 32
key_is_32 n long (inl e) = ground arith
key_is_32 n long (inr (inl e)) = ground arith
key_is_32 n long (inr (inr e)) = e

-- If `Encrypt` succeeds, with a nonce of the size of the mode, then the key has exactly 32 bytes,
-- and `Decrypt` with the same key gives the plaintext.
pub decrypt-encrypt :
    (lib : CipherLibrary) (nonce key plaintext ciphertext : Bytes)
    → IsCipher lib
    → length nonce ≡ lib.nonce_size
    → encrypt lib (ok nonce) key plaintext ≡ ok ciphertext
    → (length key ≡ 32) × (decrypt lib key ciphertext ≡ ok plaintext)
unfolding encrypt decrypt
decrypt-encrypt lib nonce key plaintext ciphertext laws size e =
    let (_, guard, e₁) =
      >>=-eq-ok (refuse (ltb (length key) 32) (external (codes "crypto: key must be 32 bytes"))) _
        e in
    let (_, made, e₂) =
      >>=-eq-ok (wrapped (codes "crypto: new cipher") (lib.new_cipher key)) _ e₁ in
    let (_, gcm, e₃) = >>=-eq-ok (wrapped (codes "crypto: new gcm") (lib.new_gcm key)) _ e₂ in
    let made' = wrapped-eq-ok (codes "crypto: new cipher") (lib.new_cipher key) made in
    let key32 = key_is_32 (length key) (refuse-eq-ok _ _ guard) (laws.key_sizes key made') in
    let sealed = lib.seal key nonce plaintext in
    let same : lib.decode ciphertext ≡ ok (nonce ++ sealed) =
      ap lib.decode (sym (ok-injective e₃)) ∙ laws.decodes (nonce ++ sealed) in
    let long : ltb (length (nonce ++ sealed)) lib.nonce_size ≡ false =
      ground (arith, length-append nonce sealed) in
    let opened : lib.open_seal key (take lib.nonce_size (nonce ++ sealed))
          (drop lib.nonce_size (nonce ++ sealed))
        ≡ ok plaintext =
      simp (sym size, take-append nonce sealed, drop-append nonce sealed)
        (laws.opens key nonce plaintext size) in
    (
      key32,
      simp (
        key32,
        same,
        made',
        wrapped-eq-ok (codes "crypto: new gcm") (lib.new_gcm key) gcm,
        long,
        opened,
      ),
    )
