-- ===== src/Sql.antt =====
-- Tables as lists of rows in the order of insertion, and the statements of SQL that the program
-- issues on them.
pub mod Counting
pub mod Laws
pub mod Page
use phantom_share.Prelude.{
  ℕ, ◌+◌, leb, Bool, true, false, ◌||◌, Option, none, some, List, [], ◌∷◌, ◌++◌, if◌then◌else◌,
}

module _ {ℓ} {A : Type ℓ} where
  -- SELECT … WHERE p, then `fetchone()`
  unfoldable pub select_one : (A → Bool) → List A → Option A
  select_one p [] = none
  select_one p (r ∷ rows) = if p r then some r else select_one p rows

  -- SELECT … WHERE p
  unfoldable pub select : (A → Bool) → List A → List A
  select p [] = []
  select p (r ∷ rows) = let rest = select p rows in if p r then r ∷ rest else rest

  -- INSERT
  unfoldable pub insert : A → List A → List A
  insert r rows = rows ++ r ∷ []

  -- UPDATE … SET f WHERE p
  unfoldable pub update : (A → Bool) → (A → A) → List A → List A
  update p f [] = []
  update p f (r ∷ rows) = (if p r then f r else r) ∷ update p f rows

  -- DELETE … WHERE p
  unfoldable pub delete : (A → Bool) → List A → List A
  delete p [] = []
  delete p (r ∷ rows) = let rest = delete p rows in if p r then rest else r ∷ rest

  -- EXISTS (SELECT … WHERE p)
  unfoldable pub exists : (A → Bool) → List A → Bool
  exists p [] = false
  exists p (r ∷ rows) = p r || exists p rows

  -- SELECT COUNT(*) … WHERE p
  unfoldable pub count : (A → Bool) → List A → ℕ
  count p [] = 0
  count p (r ∷ rows) = (if p r then 1 else 0) + count p rows

  -- COALESCE(SUM(f), 0) … WHERE p
  unfoldable pub sum : (A → Bool) → (A → ℕ) → List A → ℕ
  sum p f [] = 0
  sum p f (r ∷ rows) = (if p r then f r else 0) + sum p f rows

  -- COALESCE(MAX(f), 0) … WHERE p
  unfoldable pub max_of : (A → Bool) → (A → ℕ) → List A → ℕ
  max_of p f [] = 0
  max_of p f (r ∷ rows) =
      let m = max_of p f rows in if p r then (if leb (f r) m then m else f r) else m

  -- SELECT … WHERE p ORDER BY f DESC LIMIT 1
  unfoldable pub select_top : (A → Bool) → (A → ℕ) → List A → Option A
  select_top p f [] = none
  select_top p f (r ∷ rows) =
      let best = select_top p f rows in
      if p r
      then elim best [ none ↦ some r | some b ↦ if leb (f b) (f r) then some r else some b ]
      else best
