-- ===== src/Crypto.antt =====
-- app/helper.py: base64, and ChaCha20-Poly1305 under the master key (KEK) and under a secret's key
-- (DEK). The primitives are parameters, with the laws that their documentation promises.
pub mod Laws
use phantom_share.Prelude.{
  ℕ, String, Bool, true, false, not, Option, none, some, List, [], ◌∷◌, ◌≡◌, length, ◌==◌,
  if◌then◌else◌,
}
use phantom_share.Result.{
  Exn, value_error, type_error, bad_base64, bad_nonce, unwrap_failed, decryption_failed, Result, ok,
  err, ◌>>=◌, ◌>>◌, raise_if, or_raise,
}

abbrev pub Bytes : Type 0
Bytes = List ℕ

-- Third-party primitives and the key that `_load_kek` reads from the environment. `seal k n m` is
-- `ChaCha20Poly1305(k).encrypt(n, m, None)`, and `unseal` is the matching decryption, `none` where
-- authentication fails. `b64decode` ignores foreign characters and `b64decode_strict` is the
-- decoding with `validate=True`.
pub record Primitives : Type 0 where
  pub kek : Bytes
  pub seal : Bytes → Bytes → Bytes → Bytes
  pub unseal : Bytes → Bytes → Bytes → Option Bytes
  pub unseal-seal : (k n m : Bytes) → unseal k n (seal k n m) ≡ some m
  pub b64encode : Bytes → String
  pub b64decode : String → Option Bytes
  pub b64decode_strict : String → Option Bytes
  pub b64decode-b64encode : (m : Bytes) → b64decode (b64encode m) ≡ some m
  pub encode : String → Bytes
  pub decode : Bytes → Option String
  pub decode-encode : (s : String) → decode (encode s) ≡ some s
  pub sha256_hash : String → String

-- The random bytes that one request draws: a DEK and the two nonces of `os.urandom(12)`.
pub record Draw : Type 0 where
  pub dek : Bytes
  pub dek_nonce : Bytes
  pub nonce : Bytes

module _ (prims : Primitives) where
  unfoldable pub wrap_dek : Bytes → Bytes → String × String
  wrap_dek dek nonce = (prims.b64encode (prims.seal prims.kek nonce dek), prims.b64encode nonce)

  unfoldable pub unwrap_dek : String → String → Result Bytes
  unwrap_dek wrapped_dek_b64 nonce_b64 = do
    wrapped ← or_raise (prims.b64decode wrapped_dek_b64) (value_error bad_base64)
    nonce ← or_raise (prims.b64decode nonce_b64) (value_error bad_base64)
    or_raise (prims.unseal prims.kek nonce wrapped) (value_error unwrap_failed)

  unfoldable pub encrypt_content : String → Bytes → Bytes → String × String
  encrypt_content content dek nonce =
      (prims.b64encode (prims.seal dek nonce (prims.encode content)), prims.b64encode nonce)

  -- A NULL ciphertext or nonce makes `b64decode` raise a TypeError.
  unfoldable pub decrypt_content : Option String → Option String → Bytes → Result String
  decrypt_content encrypted_b64 nonce_b64 dek = do
    encrypted_text ← or_raise encrypted_b64 type_error
    encrypted ← or_raise (prims.b64decode encrypted_text) (value_error bad_base64)
    nonce_text ← or_raise nonce_b64 type_error
    nonce ← or_raise (prims.b64decode nonce_text) (value_error bad_base64)
    plain ← or_raise (prims.unseal dek nonce encrypted) (value_error decryption_failed)
    or_raise (prims.decode plain) (value_error decryption_failed)

  unfoldable pub validate_client_encrypted : String → String → Result (Unit {0})
  validate_client_encrypted ciphertext_b64 nonce_b64 = do
    nonce ← or_raise (prims.b64decode_strict nonce_b64) (value_error bad_base64)
    raise_if (not (length nonce == 12)) (value_error bad_nonce)
    _ ← or_raise (prims.b64decode_strict ciphertext_b64) (value_error bad_base64)
    ok tt
