-- ===== src/Tests/Sealing.antt =====
-- A cipher in the clear, and a file under it.
use Prim.Native.Nat.{◌-◌}
use phantom_share.Prelude.{
  ◌+◌, ◌≡◌, refl, some, [], ◌∷◌, ◌++◌, length, take, length-append, take-append, arith, ap,
}
use phantom_share.Result.{Result, ok, err}
use phantom_share.Crypto.{Bytes}
use phantom_share.FileCrypto.{FileCipher, Encrypted, encrypt_file, decrypt_file}
use phantom_share.FileCrypto.RoundTrip.{decrypt_file-encrypt_file}
use phantom_share.FileCrypto.Truncation.{decrypt_file-truncated}

-- The tag of sixteen bytes.
abbrev tag : Bytes
tag = 0 ∷ 0 ∷ 0 ∷ 0 ∷ 0 ∷ 0 ∷ 0 ∷ 0 ∷ 0 ∷ 0 ∷ 0 ∷ 0 ∷ 0 ∷ 0 ∷ 0 ∷ 0 ∷ []

pub length-tagged : (m : Bytes) → length (m ++ tag) ≡ length m + 16
length-tagged m = omega (arith, length-append m tag)

unfoldable pub untag : Bytes → Bytes
untag m = take (length m - 16) m

pub untag-tagged : (m : Bytes) → some (untag (m ++ tag)) ≡ some m
unfolding untag
untag-tagged m =
    ap some (take-append (length (m ++ tag) - 16) m tag (omega (arith, length-tagged m)))

abbrev pub cipher : FileCipher
cipher = record {
  seal = λ k n a m. m ++ tag;
  unseal = λ k n a m. some (untag m);
  unseal-seal = λ k n a m. untag-tagged m;
  length-seal = λ k n a m. length-tagged m;
  sha256_hex = λ m. "";
  uuid_bytes = λ id. [];
}

abbrev pub prefix : Bytes
prefix = 1 ∷ 2 ∷ 3 ∷ 4 ∷ 5 ∷ 6 ∷ 7 ∷ 8 ∷ []

abbrev pub content : Bytes
content = 11 ∷ 12 ∷ 13 ∷ []

decrypt_file-encrypt_file_example :
    (e : Encrypted) × (encrypt_file cipher [] 2 prefix 3 1 content ≡ ok e)
    × (decrypt_file cipher [] 3 1 e.object ≡ ok content)
    × (e.total ≡ 3)
decrypt_file-encrypt_file_example =
    decrypt_file-encrypt_file cipher [] prefix 1 3 1 2 content refl (omega arith) (omega arith)
      (omega arith) (omega arith)

abbrev no_file : Encrypted
no_file = record { object = []; total = 0; digest = "" }

abbrev pub or_no_file : Result Encrypted → Encrypted
or_no_file (ok e) = e
or_no_file (err _) = no_file

abbrev sealed : Encrypted
sealed = or_no_file (encrypt_file cipher [] 2 prefix 3 1 content)

decrypt_file-truncated_example :
    (cut : Bytes) × (tail : Bytes) × (sealed.object ≡ cut ++ tail)
    × (decrypt_file cipher [] 3 1 cut ≡ ok (11 ∷ 12 ∷ []))
unfolding encrypt_file phantom_share.FileCrypto.pack phantom_share.FileCrypto.encrypt_chunks
    phantom_share.FileCrypto.frame
decrypt_file-truncated_example =
    decrypt_file-truncated cipher [] prefix 1 1 3 1 (11 ∷ 12 ∷ []) (13 ∷ []) {e = sealed} refl refl
      refl
