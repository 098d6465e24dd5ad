-- ===== src/FileCrypto/Truncation.antt =====
-- What `decrypt_file` makes of an object that is cut off.
use phantom_share.Prelude.{
  ℕ, suc, zero, ◌+◌, ◌*◌, ◌≤◌, ◌≡◌, refl, sym, ap, ◌∙◌, append_assoc, [], ◌∷◌, ◌++◌, length, take,
  drop, take-append_le, drop-append_le, length-append, length-drop, arith,
}
use phantom_share.Result.{ok, >>=-eq-ok}
use phantom_share.Crypto.{Bytes}
use phantom_share.FileCrypto.{
  FileCipher, Encrypted, magic, pack, frame, encrypt_chunks, encrypt_file, decrypt_file, aad,
}
use phantom_share.FileCrypto.Frames.{unpack-pack}
use phantom_share.FileCrypto.RoundTrip.{decrypt_object, decrypt_chunks-encrypt_chunks}

module _ (cipher : FileCipher) (dek nonce_prefix aad_prefix : Bytes) (c : ℕ) where
  -- The frames of a source that is cut where a chunk ends come first among those of the source.
  encrypt_chunks-append :
      (k fuel fuel' index : ℕ) (xs ys : Bytes) {out : Bytes}
      → length xs ≡ k * suc c
      → length (xs ++ ys) ≤ fuel
      → length xs ≤ fuel'
      → encrypt_chunks cipher dek (suc c) fuel nonce_prefix aad_prefix index (xs ++ ys) ≡ ok out
      → (cut : Bytes) × (tail : Bytes) × (out ≡ cut ++ tail)
        × (encrypt_chunks cipher dek (suc c) fuel' nonce_prefix aad_prefix index xs ≡ ok cut)
  unfolding encrypt_chunks
  encrypt_chunks-append k fuel zero index [] ys {out} hk h1 h2 h = ([], out, refl, refl)
  encrypt_chunks-append k fuel (suc fuel') index [] ys {out} hk h1 h2 h = ([], out, refl, refl)
  encrypt_chunks-append k fuel zero index (x ∷ xs) ys hk h1 h2 h = absurd (omega arith)
  encrypt_chunks-append zero fuel fuel' index (x ∷ xs) ys hk h1 h2 h = absurd (omega arith)
  encrypt_chunks-append (suc k) zero fuel' index (x ∷ xs) ys hk h1 h2 h = absurd (omega arith)
  encrypt_chunks-append (suc k) (suc fuel) (suc fuel') index (x ∷ xs) ys {out} hk h1 h2 h =
      let long : c ≤ length xs = omega arith in
      let (f, hf, h') =
        >>=-eq-ok (frame cipher dek nonce_prefix aad_prefix index (x ∷ take c (xs ++ ys))) _
          {b = out} h in
      let (rest, hr, h'') =
        >>=-eq-ok
          (encrypt_chunks cipher dek (suc c) fuel nonce_prefix aad_prefix (index + 1)
            (drop c (xs ++ ys)))
          _ {b = out} h' in
      let first : frame cipher dek nonce_prefix aad_prefix index (x ∷ take c xs) ≡ ok f =
        rw (← take-append_le c xs ys long) hf in
      let others : encrypt_chunks cipher dek (suc c) fuel nonce_prefix aad_prefix (index + 1)
            (drop c xs ++ ys)
          ≡ ok rest =
        rw (← drop-append_le c xs ys long) hr in
      let (cut, tail, whole, encrypted) =
        encrypt_chunks-append k fuel fuel' (index + 1) (drop c xs) ys {out = rest}
          (omega (arith, length-drop c xs))
          (omega (arith, length-append (drop c xs) ys, length-append xs ys, length-drop c xs))
          (omega (arith, length-drop c xs)) others in
      let q : f ++ rest ≡ out = cc in
      (
        f ++ cut,
        tail,
        sym q ∙ ap (λ t. f ++ t) whole ∙ sym (append_assoc f cut tail),
        rw (first, encrypted),
      )

regroup : (a b c d : Bytes) → magic ++ (a ++ (b ++ (c ++ d))) ≡ (magic ++ (a ++ (b ++ c))) ++ d
regroup a b c d = simp append_assoc

-- An object that is cut off where the frames of a chunk end decrypts without an error, to the bytes
-- up to there: for a source of two parts, the first of which is a number of whole chunks, the
-- encrypted object has a beginning that decrypts to the first part.
pub decrypt_file-truncated :
    (cipher : FileCipher) (dek nonce_prefix : Bytes) (c k secret_id version : ℕ) (xs ys : Bytes)
    {e : Encrypted}
    → length nonce_prefix ≡ 8
    → length xs ≡ k * suc c
    → encrypt_file cipher dek (suc c) nonce_prefix secret_id version (xs ++ ys) ≡ ok e
    → (cut : Bytes) × (tail : Bytes) × (e.object ≡ cut ++ tail)
      × (decrypt_file cipher dek secret_id version cut ≡ ok xs)
unfolding encrypt_file
decrypt_file-truncated cipher dek nonce_prefix c k secret_id version xs ys {e} hp hk h =
    let (v, hv, h1) = >>=-eq-ok (pack version) _ {b = e} h in
    let (size, hs, h2) = >>=-eq-ok (pack (suc c)) _ {b = e} h1 in
    let aad_prefix = aad cipher secret_id v in
    let (frames, hf, h3) =
      >>=-eq-ok
        (encrypt_chunks cipher dek (suc c) (length (xs ++ ys)) nonce_prefix aad_prefix 0 (xs ++ ys))
        _ {b = e} h2 in
    let (cut, tail, whole, encrypted) =
      encrypt_chunks-append cipher dek nonce_prefix aad_prefix c k (length (xs ++ ys)) (length xs) 0
        xs ys {out = frames} hk (omega arith) (omega arith) hf in
    let written : magic ++ (nonce_prefix ++ (size ++ frames)) ≡ e.object = cc in
    (
      magic ++ (nonce_prefix ++ (size ++ cut)),
      tail,
      sym written
          ∙ ap (λ t. magic ++ (nonce_prefix ++ (size ++ t))) whole
          ∙ regroup nonce_prefix size cut tail,
      decrypt_object cipher dek nonce_prefix c secret_id version size cut hp
            (unpack-pack (suc c) hs).0 hv
          ∙ decrypt_chunks-encrypt_chunks cipher dek nonce_prefix aad_prefix c (length xs)
              (length cut + 1) 0 xs (omega arith) (omega arith) encrypted,
    )
