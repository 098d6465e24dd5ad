-- ===== src/FileCrypto/RoundTrip.antt =====
-- What `decrypt_file` makes of what `encrypt_file` writes.
use phantom_share.Prelude.{
  ℕ, suc, zero, ◌+◌, ◌*◌, ◌≤◌, ◌<◌, ◌≡◌, refl, ap, append_assoc, [], ◌∷◌, ◌++◌, length, take, drop,
  take-append, drop-append, take-append-drop, length-append, length-drop, length-take-le, arith,
}
use phantom_share.Result.{ok, >>=-eq-ok}
use phantom_share.Crypto.{Bytes}
use phantom_share.FileCrypto.{
  FileCipher, Encrypted, magic, pack, frame, encrypt_chunks, decrypt_chunks, encrypt_file,
  decrypt_file, decrypt_body, aad,
}
use phantom_share.FileCrypto.Frames.{unpack-pack, pack_total, read_frame}

module _ (cipher : FileCipher) (dek nonce_prefix aad_prefix : Bytes) (c : ℕ) where
  -- The frames that the loop writes are read back as the bytes that it read.
  pub decrypt_chunks-encrypt_chunks :
      (fuel fuel' index : ℕ) (src : Bytes) {out : Bytes}
      → length src ≤ fuel
      → length out < fuel'
      → encrypt_chunks cipher dek (suc c) fuel nonce_prefix aad_prefix index src ≡ ok out
      → decrypt_chunks cipher dek fuel' nonce_prefix aad_prefix index out ≡ ok src
  unfolding encrypt_chunks decrypt_chunks
  decrypt_chunks-encrypt_chunks fuel zero index src h1 h2 h = absurd (omega arith)
  decrypt_chunks-encrypt_chunks zero (suc fuel') index [] {out} h1 h2 h =
      let q : [] ≡ out = cc in rw (← q) refl
  decrypt_chunks-encrypt_chunks zero fuel' index (x ∷ xs) h1 h2 h = absurd (omega arith)
  decrypt_chunks-encrypt_chunks (suc fuel) (suc fuel') index [] {out} h1 h2 h =
      let q : [] ≡ out = cc in rw (← q) refl
  decrypt_chunks-encrypt_chunks (suc fuel) (suc fuel') index (x ∷ xs) {out} h1 h2 h =
      let (f, hf, h') =
        >>=-eq-ok (frame cipher dek nonce_prefix aad_prefix index (x ∷ take c xs)) _ {b = out} h in
      let (rest, hr, h'') =
        >>=-eq-ok
          (encrypt_chunks cipher dek (suc c) fuel nonce_prefix aad_prefix (index + 1) (drop c xs)) _
          {b = out} h' in
      let q : f ++ rest ≡ out = cc in
      let (reads, long) =
        read_frame cipher dek nonce_prefix aad_prefix fuel' index (x ∷ take c xs) rest hf in
      let shorter : length rest < fuel' = omega (arith, length-append f rest, ap length q) in
      let recursive =
        decrypt_chunks-encrypt_chunks fuel fuel' (index + 1) (drop c xs) {out = rest}
          (omega (arith, length-drop c xs)) shorter hr in
      rw (← q, reads, recursive, take-append-drop c xs) refl

  -- The loop ends with all frames written where a sealed chunk and the number of the rounds fit
  -- into four bytes.
  pub encrypt_chunks_total :
      (fuel rounds index : ℕ) (src : Bytes)
      → suc c + 16 < 4294967296
      → length src ≤ rounds * suc c
      → index + rounds ≤ 4294967296
      → (out : Bytes) × (encrypt_chunks cipher dek (suc c) fuel nonce_prefix aad_prefix index src
          ≡ ok out)
  unfolding encrypt_chunks frame
  encrypt_chunks_total zero rounds index src hc hs hi = ([], refl)
  encrypt_chunks_total (suc fuel) rounds index [] hc hs hi = ([], refl)
  encrypt_chunks_total (suc fuel) zero index (x ∷ xs) hc hs hi = absurd (omega arith)
  encrypt_chunks_total (suc fuel) (suc rounds) index (x ∷ xs) hc hs hi =
      let (i, pi) = pack_total index (omega arith) in
      let encrypted = cipher.seal dek (nonce_prefix ++ i) (aad_prefix ++ i) (x ∷ take c xs) in
      let (n, pn) = pack_total (length encrypted) (
        omega (
          arith,
          cipher.length-seal dek (nonce_prefix ++ i) (aad_prefix ++ i) (x ∷ take c xs),
          length-take-le c xs,
        )) in
      let (rest, pr) =
        encrypt_chunks_total fuel rounds (index + 1) (drop c xs) hc
          (omega (arith, length-drop c xs)) (omega arith) in
      ((n ++ encrypted) ++ rest, rw (pi, pn, pr))

module _ (cipher : FileCipher) (dek nonce_prefix : Bytes) (c : ℕ) where
  -- Behind a header, the frames are decrypted.
  decrypt_header :
      (aad_prefix size frames : Bytes)
      → length nonce_prefix ≡ 8
      → length size ≡ 4
      → decrypt_body cipher dek aad_prefix (magic ++ (nonce_prefix ++ size)) frames
        ≡ decrypt_chunks cipher dek (length frames + 1) nonce_prefix aad_prefix 0 frames
  unfolding decrypt_body
  decrypt_header aad_prefix size frames hp hs =
      let behind : length (nonce_prefix ++ size) ≡ 12 =
        omega (arith, length-append nonce_prefix size) in
      rw (behind, take-append 8 nonce_prefix size hp)

  pub decrypt_object :
      (secret_id version : ℕ) (size frames : Bytes) {v : Bytes}
      → length nonce_prefix ≡ 8
      → length size ≡ 4
      → pack version ≡ ok v
      → decrypt_file cipher dek secret_id version (magic ++ (nonce_prefix ++ (size ++ frames)))
        ≡ decrypt_chunks cipher dek
            (length frames + 1)
            nonce_prefix
            (aad cipher secret_id v)
            0
            frames
  unfolding decrypt_file
  decrypt_object secret_id version size frames {v} hp hs hv =
      let header = magic ++ (nonce_prefix ++ size) in
      let long : length header ≡ 20 = omega (arith, length-append nonce_prefix size) in
      let read : take 20 (header ++ frames) ≡ header = take-append 20 header frames long in
      let left : drop 20 (header ++ frames) ≡ frames = drop-append 20 header frames long in
      rw (hv, ← append_assoc nonce_prefix size frames, read, left)
        (decrypt_header (aad cipher secret_id v) size frames hp hs)

  -- A file decrypts to itself, under the key, the id and the version under which it was encrypted,
  -- and the encryption returns: for a nonce prefix of eight bytes, where a version, a sealed chunk
  -- and the number of the chunks fit into four bytes.
  pub decrypt_file-encrypt_file :
      (secret_id version rounds : ℕ) (source : Bytes)
      → length nonce_prefix ≡ 8
      → version < 4294967296
      → suc c + 16 < 4294967296
      → length source ≤ rounds * suc c
      → rounds ≤ 4294967296
      → (e : Encrypted) × (encrypt_file cipher dek (suc c) nonce_prefix secret_id version source
          ≡ ok e)
        × (decrypt_file cipher dek secret_id version e.object ≡ ok source)
        × (e.total ≡ length source)
  unfolding encrypt_file
  decrypt_file-encrypt_file secret_id version rounds source hp hv hc hl hr =
      let (v, pv) = pack_total version hv in
      let (size, ps) = pack_total (suc c) (omega arith) in
      let aad_prefix = aad cipher secret_id v in
      let (frames, pf) =
        encrypt_chunks_total cipher dek nonce_prefix aad_prefix c (length source) rounds 0 source hc
          hl (omega arith) in
      (
        record {
          object = magic ++ (nonce_prefix ++ (size ++ frames));
          total = length source;
          digest = cipher.sha256_hex source;
        },
        rw (pv, ps, pf),
        rw (decrypt_object secret_id version size frames hp (unpack-pack (suc c) ps).0 pv) (
            decrypt_chunks-encrypt_chunks cipher dek nonce_prefix aad_prefix c (length source)
              (length frames + 1) 0 source (omega arith) (omega arith) pf),
        refl,
      )
