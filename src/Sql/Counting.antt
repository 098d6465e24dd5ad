-- ===== src/Sql/Counting.antt =====
-- What COUNT, MAX and the first row of an order find after each statement, and rows under a key.
use phantom_share.Prelude.{
  ℕ, ◌≤◌, ◌<◌, ◌≡◌, refl, Bool, true, false, none, some, List, [], ◌∷◌, arith, ◌==◌,
}
use phantom_share.Sql.{select_one, insert, update, delete, exists, max_of, select_top, count}

module _ {ℓ} {A : Type ℓ} where
  -- A row with a larger value than every other is the first in descending order.
  pub select_top-insert :
      (p : A → Bool) (f : A → ℕ) (r : A) (rows : List A)
      → p r ≡ true
      → max_of p f rows < f r
      → select_top p f (insert r rows) ≡ some r
  unfolding select_top insert max_of
  select_top-insert p f r [] e h = ground arith
  select_top-insert p f r (x ∷ rows) e h = ground (arith, select_top-insert p f r rows e)

  pub max_of-insert :
      (p : A → Bool) (f : A → ℕ) (r : A) (rows : List A)
      → p r ≡ true
      → max_of p f rows ≤ f r
      → max_of p f (insert r rows) ≡ f r
  unfolding max_of insert
  max_of-insert p f r [] e h = ground arith
  max_of-insert p f r (x ∷ rows) e h = ground (arith, max_of-insert p f r rows e)

  pub max_of-update :
      (p : A → Bool) (f : A → ℕ) (q : A → Bool) (g : A → A) (rows : List A)
      → ((r : A) → p (g r) ≡ p r)
      → ((r : A) → f (g r) ≡ f r)
      → max_of p f (update q g rows) ≡ max_of p f rows
  unfolding max_of update
  max_of-update p f q g [] hp hf = refl
  max_of-update p f q g (x ∷ rows) hp hf =
      ground (arith, hp x, hf x, max_of-update p f q g rows hp hf)

  -- No row beyond the maximum.
  pub exists-max_of :
      (p q : A → Bool) (f : A → ℕ) (n : ℕ) (rows : List A)
      → ((r : A) → q r ≡ true → (p r ≡ true) × (f r ≡ n))
      → max_of p f rows < n
      → exists q rows ≡ false
  unfolding max_of exists
  exists-max_of p q f n [] hq h = refl
  exists-max_of p q f n (x ∷ rows) hq h = ground (arith, hq x, exists-max_of p q f n rows hq)

  pub max_of-none :
      (p : A → Bool) (f : A → ℕ) (rows : List A) → exists p rows ≡ false → max_of p f rows ≡ 0
  unfolding exists max_of
  max_of-none p f [] h = refl
  max_of-none p f (x ∷ rows) h = ground (arith, max_of-none p f rows)

  count-zero_narrow :
      (p q : A → Bool) (rows : List A)
      → ((r : A) → p r ≡ true → q r ≡ true)
      → count q rows ≡ 0
      → (count p rows ≡ 0) × (exists q (delete p rows) ≡ false)
  unfolding count exists delete
  count-zero_narrow p q [] h e = (refl, refl)
  count-zero_narrow p q (x ∷ rows) h e = ground (arith, h x, count-zero_narrow p q rows h)

  -- Where `q` is a key and a row of a narrower condition is deleted, no row has the key.
  pub exists-delete_key :
      (p q : A → Bool) (rows : List A)
      → ((r : A) → p r ≡ true → q r ≡ true)
      → count q rows ≤ 1
      → (count p rows == 0) ≡ false
      → exists q (delete p rows) ≡ false
  unfolding count exists delete
  exists-delete_key p q [] h one some_row = cc
  exists-delete_key p q (x ∷ rows) h one some_row =
      ground (arith, h x, count-zero_narrow p q rows h, exists-delete_key p q rows h)

  pub count-insert_other :
      (p : A → Bool) (r : A) (rows : List A) → p r ≡ false → count p (insert r rows) ≡ count p rows
  unfolding count insert
  count-insert_other p r [] h = rw h
  count-insert_other p r (x ∷ rows) h = ground (arith, count-insert_other p r rows h)

  -- A row that is alone under its key and is deleted is not found any more.
  select_one-absent :
      (p q : A → Bool) (rows : List A) → count p rows ≡ 0 → select_one p (delete q rows) ≡ none
  unfolding count select_one delete
  select_one-absent p q [] h = refl
  select_one-absent p q (x ∷ rows) h = ground (arith, select_one-absent p q rows)

  pub select_one-delete_unique :
      (p q : A → Bool) (rows : List A) {r : A}
      → select_one p rows ≡ some r
      → count p rows ≤ 1
      → q r ≡ true
      → select_one p (delete q rows) ≡ none
  unfolding count select_one delete
  select_one-delete_unique p q [] e h g = cc
  select_one-delete_unique p q (x ∷ rows) {r} e h g =
      ground (arith, select_one-absent p q rows, select_one-delete_unique p q rows {r = r})

  pub count-update :
      (p q : A → Bool) (f : A → A) (rows : List A)
      → ((r : A) → p (f r) ≡ p r)
      → count p (update q f rows) ≡ count p rows
  unfolding count update
  count-update p q f [] h = refl
  count-update p q f (x ∷ rows) h = ground (arith, h x, count-update p q f rows h)
