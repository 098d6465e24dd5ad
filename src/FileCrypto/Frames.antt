-- ===== src/FileCrypto/Frames.antt =====
-- The lengths and the frames of app/services/file_crypto.py: what is written is read back.
use phantom_share.Prelude.{
  ℕ, suc, ◌+◌, ◌/◌, ◌%◌, ◌≤◌, ◌<◌, ◌≡◌, refl, sym, ap, ◌∙◌, lt→ltb, [], ◌∷◌, ◌++◌, length,
  take-append, drop-append, ==-self, some, arith,
}
use phantom_share.Result.{ok, ◌>>=◌, >>=-eq-ok}
use phantom_share.Crypto.{Bytes}
use phantom_share.FileCrypto.{FileCipher, pack, unpack, frame, decrypt_chunks}

-- What is packed takes four bytes, and unpacks to the same number.
pub unpack-pack :
    (n : ℕ) {bytes : Bytes} → pack n ≡ ok bytes → (length bytes ≡ 4) × (unpack bytes ≡ ok n)
unfolding pack unpack
unpack-pack n h = ground arith

four_bytes :
    (bytes : Bytes)
    → length bytes ≡ 4
    → (a : ℕ) × (b : ℕ) × (c : ℕ) × (d : ℕ) × (bytes ≡ a ∷ b ∷ c ∷ d ∷ [])
four_bytes (a ∷ b ∷ c ∷ d ∷ []) h = (a, b, c, d, refl)
four_bytes (a ∷ b ∷ c ∷ d ∷ e ∷ rest) h = absurd (omega arith)
four_bytes (a ∷ b ∷ c ∷ []) h = absurd (omega arith)
four_bytes (a ∷ b ∷ []) h = absurd (omega arith)
four_bytes (a ∷ []) h = absurd (omega arith)
four_bytes [] h = absurd (omega arith)

pub pack_total : (n : ℕ) → n < 4294967296 → (bytes : Bytes) × (pack n ≡ ok bytes)
unfolding pack
pack_total n h =
    (n / 16777216 ∷ n / 65536 % 256 ∷ n / 256 % 256 ∷ n % 256 ∷ [], rw (lt→ltb n 4294967296 h))

module _ (cipher : FileCipher) (dek nonce_prefix aad_prefix : Bytes) where
  -- A sealed chunk behind its length is read back, and the loop goes on behind it.
  read_sealed :
      (fuel index n a b c d : ℕ) (i encrypted chunk rest : Bytes)
      → unpack (a ∷ b ∷ c ∷ d ∷ []) ≡ ok n
      → length encrypted ≡ n
      → pack index ≡ ok i
      → cipher.unseal dek (nonce_prefix ++ i) (aad_prefix ++ i) encrypted ≡ some chunk
      → decrypt_chunks cipher dek
          (suc fuel)
          nonce_prefix
          aad_prefix
          index
          (a ∷ b ∷ c ∷ d ∷ (encrypted ++ rest))
        ≡ (decrypt_chunks cipher dek fuel nonce_prefix aad_prefix (index + 1) rest >>= λ more.
            ok (chunk ++ more))
  unfolding decrypt_chunks
  read_sealed fuel index n a b c d i encrypted chunk rest hn hl hi hu =
      rw (
        hn,
        take-append n encrypted rest hl,
        drop-append n encrypted rest hl,
        hl,
        ==-self n,
        hi,
        hu,
      )

  -- What the loop writes for one chunk is at least a length, and is read back.
  pub read_frame :
      (fuel index : ℕ) (chunk rest : Bytes) {f : Bytes}
      → frame cipher dek nonce_prefix aad_prefix index chunk ≡ ok f
      → (decrypt_chunks cipher dek (suc fuel) nonce_prefix aad_prefix index (f ++ rest) ≡ (
          decrypt_chunks cipher dek fuel nonce_prefix aad_prefix (index + 1) rest >>= λ more.
          ok (chunk ++ more)))
        × (4 ≤ length f)
  unfolding frame
  read_frame fuel index chunk rest {f} h =
      let (i, hi, h1) = >>=-eq-ok (pack index) _ {b = f} h in
      let encrypted = cipher.seal dek (nonce_prefix ++ i) (aad_prefix ++ i) chunk in
      let (n, hn, h2) = >>=-eq-ok (pack (length encrypted)) _ {b = f} h1 in
      let (a, b, c, d, e) = four_bytes n (unpack-pack (length encrypted) hn).0 in
      let written : n ++ encrypted ≡ f = cc in
      let q : a ∷ b ∷ c ∷ d ∷ encrypted ≡ f = ap (λ t. t ++ encrypted) (sym e) ∙ written in
      rw (← q) (
        read_sealed fuel index (length encrypted) a b c d i encrypted chunk rest
            (rw (← e) (unpack-pack (length encrypted) hn).1) refl hi
            (cipher.unseal-seal dek (nonce_prefix ++ i) (aad_prefix ++ i) chunk),
        omega arith,
      )
