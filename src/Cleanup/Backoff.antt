-- ===== src/Cleanup/Backoff.antt =====
-- How long a failed deletion of an object is put off.
use Prim.Native.Nat.{◌^◌}
use native.Mathlib.Nat.{one-le-pow, pow-le-pow_right}
use phantom_share.Prelude.{ℕ, ◌≤◌, arith}
use phantom_share.Cleanup.Storage.{backoff, least}

pow_bounds : (n : ℕ) → n ≤ 11 → (1 ≤ 2 ^ n) × (2 ^ n ≤ 2048)
pow_bounds n h = (one-le-pow n 2 (omega arith), pow-le-pow_right {n = 2} (omega arith) h)

least_bounds : (p : ℕ) → 1 ≤ p → p ≤ 2048 → (1 ≤ least 3600 p) × (least 3600 p ≤ 2048)
least_bounds p h1 h2 = ground arith

least-le : (attempts : ℕ) → least attempts 11 ≤ 11
least-le attempts = ground arith

-- A failed deletion is put off by a second at least, and by 2048 seconds at most: the limit of an
-- hour in the code is never met.
backoff_bounds : (attempts : ℕ) → (1 ≤ backoff attempts) × (backoff attempts ≤ 2048)
unfolding backoff
backoff_bounds attempts =
    let (low, high) = pow_bounds (least attempts 11) (least-le attempts) in
    least_bounds (2 ^ least attempts 11) low high
