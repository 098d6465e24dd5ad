-- ===== src/Cleanup/Sweep.antt =====
-- What the periodic sweep leaves.
use phantom_share.Prelude.{
  Bool, Option, not, leb, ltb, ◌&&◌, ℕ, ◌≤◌, ◌<◌, ◌≡◌, refl, true, false, List, [], ◌∷◌, All, arith,
  Bool-cases, inl, inr,
}
use phantom_share.Sql.{count, delete, update}
use phantom_share.Schema.{Db, SecretRow, delete_secrets}
use phantom_share.Cleanup.{
  sweep, without_users, delete_users, delete_tracking, is_over, is_removable, unless_gone,
}

-- A row, without its owner where that user goes too.
abbrev pub orphaned : ℕ → Db → SecretRow → SecretRow
orphaned now db s = record s { owner_id = unless_gone db.users (is_removable now) s.owner_id }

-- A secret that may still be read: its time is not over and it has views left.
abbrev pub IsReadable : ℕ → SecretRow → Type 0
IsReadable now s = (now ≤ s.expires_at) × (s.view_count < s.max_views)

readable : (now : ℕ) (s : SecretRow) → is_over now s ≡ false → IsReadable now s
readable now s h = (ground arith, ground arith)

All-orphaned :
    (now : ℕ) (db : Db) (rows : List SecretRow)
    → All (IsReadable now) (update (λ _. true) (orphaned now db) (delete (is_over now) rows))
unfolding update delete
All-orphaned now db [] = tt
All-orphaned now db (s ∷ rows) = elim (Bool-cases (is_over now s)) [
  | inl over ↦ rw over (All-orphaned now db rows)
  | inr live ↦ rw live (readable now s live, All-orphaned now db rows)
]

-- The same as a test.
abbrev pub is_readable : ℕ → SecretRow → Bool
is_readable now s = leb now s.expires_at && ltb s.view_count s.max_views

is_readable-over : (now : ℕ) (s : SecretRow) → is_readable now s ≡ not (is_over now s)
is_readable-over now s = ground arith

count-orphaned :
    (now : ℕ) (db : Db) (q : SecretRow → Bool) (rows : List SecretRow)
    → ((s : SecretRow) (o : Option ℕ) → q (record s { owner_id = o }) ≡ q s)
    → count q (update (λ _. true) (orphaned now db) (delete (is_over now) rows))
      ≡ count (λ s. q s && is_readable now s) rows
unfolding update delete count
count-orphaned now db q [] blind = refl
count-orphaned now db q (s ∷ rows) blind =
    let rest = count-orphaned now db q rows blind in
    let same = blind s (unless_gone db.users (is_removable now) s.owner_id) in
    elim (Bool-cases (is_over now s)) [
      | inl over ↦ rw (is_readable-over now s, over) ground (arith, rest)
      | inr live ↦ rw (is_readable-over now s, live, same) ground (arith, rest)
    ]

-- After a sweep every secret that is left has a time that is not over and views left; and every secret
-- with both is left, once and as it was, its owner apart: whatever a test reads but the owner, as many
-- rows pass it after the sweep as there were before among those.
pub sweep_lem :
    (now : ℕ) (db : Db) (q : SecretRow → Bool)
    → ((s : SecretRow) (o : Option ℕ) → q (record s { owner_id = o }) ≡ q s)
    → All (IsReadable now) (sweep now db).secrets
      × (count q (sweep now db).secrets ≡ count (λ s. q s && is_readable now s) db.secrets)
unfolding sweep without_users delete_users delete_tracking delete_secrets
sweep_lem now db q blind =
    (All-orphaned now db db.secrets, count-orphaned now db q db.secrets blind)
