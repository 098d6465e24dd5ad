-- ===== src/Crypto/Laws.antt =====
-- What is wrapped or encrypted comes back.
use phantom_share.Prelude.{String, ◌≡◌, some}
use phantom_share.Result.{ok}
use phantom_share.Crypto.{Bytes, Primitives, wrap_dek, unwrap_dek, encrypt_content, decrypt_content}

module _ (prims : Primitives) where
  -- A wrapped key unwraps to itself.
  pub unwrap_dek-wrap_dek :
      (dek nonce : Bytes)
      → unwrap_dek prims (wrap_dek prims dek nonce).0 (wrap_dek prims dek nonce).1 ≡ ok dek
  unfolding wrap_dek unwrap_dek
  unwrap_dek-wrap_dek dek nonce =
      rw (prims.b64decode-b64encode (prims.seal prims.kek nonce dek))
        (rw (prims.b64decode-b64encode nonce) (rw (prims.unseal-seal prims.kek nonce dek)))

  -- Encrypted content decrypts under the same key to the same text.
  pub decrypt_content-encrypt_content :
      (content : String) (dek nonce : Bytes)
      → let (c, n) = encrypt_content prims content dek nonce in
        decrypt_content prims (some c) (some n) dek ≡ ok content
  unfolding encrypt_content decrypt_content
  decrypt_content-encrypt_content content dek nonce =
      rw (prims.b64decode-b64encode (prims.seal dek nonce (prims.encode content))) (
        rw (prims.b64decode-b64encode nonce) (
          rw (prims.unseal-seal dek nonce (prims.encode content))
            (rw (prims.decode-encode content))))
