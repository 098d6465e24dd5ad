-- ===== src/FileCrypto.antt =====
-- app/services/file_crypto.py: files as a header and a frame for each chunk, each sealed on its own.
pub mod Frames
pub mod RoundTrip
pub mod Truncation
use phantom_share.Prelude.{
  ℕ, suc, zero, ◌+◌, ◌*◌, ◌/◌, ◌%◌, String, Bool, true, false, not, ◌||◌, Option, none, some, List,
  [], ◌∷◌, ◌++◌, ◌==◌, ◌≡◌, ltb, length, take, drop, if◌then◌else◌,
}
use phantom_share.Result.{
  value_error, bad_file_header, truncated_file, struct_error, invalid_tag, Result, ok, err, ◌>>=◌,
  ◌>>◌, raise_if, or_raise,
}
use phantom_share.Crypto.{Bytes}

-- ChaCha20Poly1305 with associated data, SHA-256 and the bytes of a UUID: `seal k n a m` is
-- `ChaCha20Poly1305(k).encrypt(n, m, a)`, which adds a tag of 16 bytes.
pub record FileCipher : Type 0 where
  pub seal : Bytes → Bytes → Bytes → Bytes → Bytes
  pub unseal : Bytes → Bytes → Bytes → Bytes → Option Bytes
  pub unseal-seal : (k n a m : Bytes) → unseal k n a (seal k n a m) ≡ some m
  pub length-seal : (k n a m : Bytes) → length (seal k n a m) ≡ length m + 16
  pub sha256_hex : Bytes → String
  pub uuid_bytes : ℕ → Bytes

-- b"PHANTOM1"
abbrev pub magic : Bytes
magic = 80 ∷ 72 ∷ 65 ∷ 78 ∷ 84 ∷ 79 ∷ 77 ∷ 49 ∷ []

-- `struct.pack(">I", n)`
unfoldable pub pack : ℕ → Result Bytes
pack n =
    if ltb n 4294967296
    then ok (n / 16777216 ∷ n / 65536 % 256 ∷ n / 256 % 256 ∷ n % 256 ∷ [])
    else err struct_error

-- `struct.unpack(">I", bytes)`
unfoldable pub unpack : Bytes → Result ℕ
unpack (a ∷ b ∷ c ∷ d ∷ []) = ok (a * 16777216 + b * 65536 + c * 256 + d)
unpack _ = err struct_error

abbrev pub same_bytes : Bytes → Bytes → Bool
same_bytes [] [] = true
same_bytes (x ∷ xs) (y ∷ ys) = if x == y then same_bytes xs ys else false
same_bytes _ _ = false

-- `secret_id.bytes + struct.pack(">I", version)`
abbrev pub aad : FileCipher → ℕ → Bytes → Bytes
aad cipher secret_id v = cipher.uuid_bytes secret_id ++ v

-- The object that `encrypt_file` writes, and what it returns.
pub record Encrypted : Type 0 where
  pub object : Bytes
  pub total : ℕ
  pub digest : String

module _ (cipher : FileCipher) (dek : Bytes) where
  -- The bytes that the loop writes for one chunk: a length, and the chunk sealed under its index.
  unfoldable pub frame : Bytes → Bytes → ℕ → Bytes → Result Bytes
  frame nonce_prefix aad_prefix index chunk = do
    i ← pack index
    let encrypted = cipher.seal dek (nonce_prefix ++ i) (aad_prefix ++ i) chunk
    n ← pack (length encrypted)
    ok (n ++ encrypted)

  -- `while chunk := src.read(CHUNK_SIZE)`, with one unit of fuel for each round.
  unfoldable pub encrypt_chunks : ℕ → ℕ → Bytes → Bytes → ℕ → Bytes → Result Bytes
  encrypt_chunks chunk_size zero nonce_prefix aad_prefix index src = ok []
  encrypt_chunks chunk_size (suc fuel) nonce_prefix aad_prefix index src =
      elim (take chunk_size src) [
        | [] ↦ ok []
        | b ∷ bs ↦ do
          f ← frame nonce_prefix aad_prefix index (b ∷ bs)
          rest ←
              encrypt_chunks chunk_size fuel nonce_prefix aad_prefix (index + 1)
                (drop chunk_size src)
          ok (f ++ rest)
      ]

  -- `while True` of `decrypt_file`, which ends where nothing is left to read.
  unfoldable pub decrypt_chunks : ℕ → Bytes → Bytes → ℕ → Bytes → Result Bytes
  decrypt_chunks zero nonce_prefix aad_prefix index src = ok []
  decrypt_chunks (suc fuel) nonce_prefix aad_prefix index src = elim (take 4 src) [
    | [] ↦ ok []
    | b ∷ bs ↦ do
      raise_if (not (length (b ∷ bs) == 4)) (value_error truncated_file)
      n ← unpack (b ∷ bs)
      let encrypted = take n (drop 4 src)
      raise_if (not (length encrypted == n)) (value_error truncated_file)
      i ← pack index
      plaintext ←
          or_raise (cipher.unseal dek (nonce_prefix ++ i) (aad_prefix ++ i) encrypted) invalid_tag
      rest ← decrypt_chunks fuel nonce_prefix aad_prefix (index + 1) (drop n (drop 4 src))
      ok (plaintext ++ rest)
  ]

  -- `encrypt_file`: `nonce_prefix` is the 8 random bytes. A round reads at least one byte, so the
  -- length of the source is enough fuel.
  unfoldable pub encrypt_file : ℕ → Bytes → ℕ → ℕ → Bytes → Result Encrypted
  encrypt_file chunk_size nonce_prefix secret_id version source = do
    v ← pack version
    size ← pack chunk_size
    frames ←
        encrypt_chunks chunk_size (length source) nonce_prefix (aad cipher secret_id v) 0 source
    ok (record {
      object = magic ++ (nonce_prefix ++ (size ++ frames));
      total = length source;
      digest = cipher.sha256_hex source;
    })

  -- `decrypt_file` once the header is read; `body` is what follows it. A round reads at least four
  -- bytes.
  unfoldable pub decrypt_body : Bytes → Bytes → Bytes → Result Bytes
  decrypt_body aad_prefix header body = do
    raise_if (not (length header == 20) || not (same_bytes (take 8 header) magic))
        (value_error bad_file_header)
    decrypt_chunks (length body + 1) (take 8 (drop 8 header)) aad_prefix 0 body

  unfoldable pub decrypt_file : ℕ → ℕ → Bytes → Result Bytes
  decrypt_file secret_id version source = do
    v ← pack version
    decrypt_body (aad cipher secret_id v) (take 20 source) (drop 20 source)
