-- ===== src/Crypto.antt =====
-- internal/pkg/crypto/crypto.go: the encryption of tunnel tokens.
pub mod RoundTrip
mod Tests
use tunnel_manager.Prelude.{
  ℕ, Bool, not, List, [], ◌∷◌, ◌++◌, Result, ok, err, Error, external, wrap, refuse, ◌>>=◌, ◌>>◌,
  ◌==◌, ltb, length, drop, take,
}
use tunnel_manager.Prelude.Text.{Bytes, codes}

-- The packages `crypto/aes`, `crypto/cipher` and `encoding/base64`. The GCM mode of a cipher is
-- named by the cipher's key; `seal` gives what is appended to the nonce.
pub record CipherLibrary : Type 0 where
  pub new_cipher : Bytes → Result (Unit {0})
  pub new_gcm : Bytes → Result (Unit {0})
  pub nonce_size : ℕ
  pub seal : Bytes → Bytes → Bytes → Bytes
  pub open_seal : Bytes → Bytes → Bytes → Result Bytes
  pub encode : Bytes → Bytes
  pub decode : Bytes → Result Bytes

abbrev pub wrapped {ℓ} : {A : Type ℓ} → Bytes → Result A → Result A
wrapped m (ok a) = ok a
wrapped m (err e) = err (wrap m e)

-- `random` is what `io.ReadFull(rand.Reader, nonce)` leaves in `nonce`.
unfoldable pub encrypt : CipherLibrary → Result Bytes → Bytes → Bytes → Result Bytes
encrypt lib random key plaintext =
    refuse (ltb (length key) 32) (external (codes "crypto: key must be 32 bytes")) >>= λ _.
    wrapped (codes "crypto: new cipher") (lib.new_cipher key) >>= λ _.
    wrapped (codes "crypto: new gcm") (lib.new_gcm key) >>= λ _.
    wrapped (codes "crypto: read nonce") random >>= λ nonce.
    ok (lib.encode (nonce ++ lib.seal key nonce plaintext))

-- `raw[:nonceSize]` and `raw[nonceSize:]` are opened.
unfoldable pub decrypt : CipherLibrary → Bytes → Bytes → Result Bytes
decrypt lib key ciphertext =
    refuse (not (length key == 32)) (external (codes "crypto: key must be 32 bytes")) >>= λ _.
    wrapped (codes "crypto: decode base64") (lib.decode ciphertext) >>= λ raw.
    wrapped (codes "crypto: new cipher") (lib.new_cipher key) >>= λ _.
    wrapped (codes "crypto: new gcm") (lib.new_gcm key) >>= λ _.
    refuse (ltb (length raw) lib.nonce_size) (external (codes "crypto: ciphertext too short"))
    >>= λ _.
        wrapped (codes "crypto: decrypt")
          (lib.open_seal key (take lib.nonce_size raw) (drop lib.nonce_size raw))
