-- ===== src/Files/Spool.antt =====
-- What `spool_upload` of app/routers/file_support.py returns.
use phantom_share.Prelude.{
  ℕ, zero, suc, ◌+◌, ◌≤◌, ◌≡◌, ◌∙◌, Bool-cases, inl, inr, [], ◌∷◌, ◌==◌, ltb, length, take, drop,
  take-append-drop, length-append, length-drop, if◌then◌else◌, ap, arith,
}
use phantom_share.Result.{http, Result, ok, err}
use phantom_share.Crypto.{Bytes}
use phantom_share.Files.{spool, spool_upload, too_large}

-- The size of an upload of `n` bytes.
abbrev measured : ℕ → ℕ → Result ℕ
measured max n = if ltb max n then err (too_large max) else ok n

spool_lem :
    (c fuel max_file_bytes total : ℕ) (upload : Bytes)
    → length upload ≤ fuel
    → total ≤ max_file_bytes
    → spool (suc c) fuel max_file_bytes total upload
      ≡ measured max_file_bytes (total + length upload)
unfolding spool
spool_lem c zero max total [] hl ht = ground arith
spool_lem c zero max total (b ∷ bs) hl ht = absurd (omega arith)
spool_lem c (suc fuel) max total [] hl ht = ground arith
spool_lem c (suc fuel) max total (b ∷ bs) hl ht =
    let n = length (b ∷ take c bs) in
    let parts : n + length (drop c bs) ≡ length (b ∷ bs) =
      omega (arith, length-append (take c bs) (drop c bs), ap length (take-append-drop c bs)) in
    elim (Bool-cases (ltb max (total + n))) [
      | inl large ↦ rw large (ground arith)
      | inr small ↦ rw small (
          spool_lem c fuel max (total + n) (drop c bs) (omega (arith, length-drop c bs))
            (ground arith)
          ∙ ap (measured max) (omega arith))
    ]

-- The size of an upload, read piece by piece, is its length: the empty upload is refused by 422 and
-- one above the limit by 413, and no other.
spool_upload_lem :
    (max_file_bytes : ℕ) (upload : Bytes)
    → spool_upload max_file_bytes upload ≡ (
        if length upload == 0
        then err (http 422 "File is empty")
        else if ltb max_file_bytes (length upload)
        then err (too_large max_file_bytes)
        else ok (length upload))
unfolding spool_upload
spool_upload_lem max upload =
    rw (spool_lem 1048575 (length upload) max 0 upload (omega arith) (omega arith)) (ground arith)
