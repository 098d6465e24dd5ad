-- ===== src/Sql/Page.antt =====
-- ORDER BY, LIMIT and OFFSET, and the pages that they cut a list into.
use phantom_share.Prelude.{
  All, Bool-cases, inl, inr, ltb, true, ◌||◌, ◌&&◌, ℕ, zero, suc, ◌+◌, ◌-◌, ◌*◌, ◌≤◌, ◌≡◌, refl,
  sym, ap, ◌∙◌, Bool, List, [], ◌∷◌, ◌++◌, map, length, take, drop, ◌==◌, if◌then◌else◌, arith,
}
use native.Mathlib.Nat.{suc-mul}
use mathlib.Core.List.{map-append}
use phantom_share.Sql.{select, count}

module _ {ℓ} {A : Type ℓ} where
  -- `x` goes before `y`: it has the larger key, or the same and the database puts it first.
  abbrev pub goes_first : (A → A → Bool) → (A → ℕ) → A → A → Bool
  goes_first ties key x y = ltb (key y) (key x) || (key y == key x && ties x y)

  unfoldable pub insert_desc : (A → A → Bool) → (A → ℕ) → A → List A → List A
  insert_desc ties key x [] = x ∷ []
  insert_desc ties key x (y ∷ ys) =
      let rest = insert_desc ties key x ys in
      if goes_first ties key x y then x ∷ y ∷ ys else y ∷ rest

  -- ORDER BY key DESC. Rows of one key come in an order of the database, `ties`, which another query
  -- need not repeat.
  unfoldable pub order_by_desc : (A → A → Bool) → (A → ℕ) → List A → List A
  unfolding insert_desc
  order_by_desc ties key [] = []
  order_by_desc ties key (x ∷ xs) = insert_desc ties key x (order_by_desc ties key xs)

  -- LIMIT n OFFSET k
  unfoldable pub offset : ℕ → List A → List A
  offset k [] = []
  offset k (x ∷ xs) = let rest = offset (k - 1) xs in if k == 0 then x ∷ xs else rest

  unfoldable pub limit : ℕ → List A → List A
  limit n [] = []
  limit n (x ∷ xs) = let rest = limit (n - 1) xs in if n == 0 then [] else x ∷ rest

  -- The first `n` pages, one after the other.
  abbrev pub pages : (ℕ → List A) → ℕ → List A
  pages f zero = []
  pages f (suc n) = pages f n ++ f (suc n)

  limit-take : (n : ℕ) (xs : List A) → limit n xs ≡ take n xs
  unfolding limit
  limit-take zero [] = refl
  limit-take (suc n) [] = refl
  limit-take zero (x ∷ xs) = refl
  limit-take (suc n) (x ∷ xs) = ground (arith, limit-take n xs)

  offset-drop : (k : ℕ) (xs : List A) → offset k xs ≡ drop k xs
  unfolding offset
  offset-drop zero [] = refl
  offset-drop (suc k) [] = refl
  offset-drop zero (x ∷ xs) = refl
  offset-drop (suc k) (x ∷ xs) = ground (arith, offset-drop k xs)

  take-nil : (n : ℕ) → [] ≡ take {A = A} n []
  take-nil zero = refl
  take-nil (suc n) = refl

  take-add : (m n : ℕ) (xs : List A) → take (m + n) xs ≡ take m xs ++ take n (drop m xs)
  take-add zero n xs = ap (λ k. take k xs) (omega arith)
  take-add (suc m) n [] =
      ap (λ k. take {A = A} k []) {x = suc m + n} {y = suc (m + n)} (omega arith) ∙ take-nil n
  take-add (suc m) n (x ∷ xs) =
      ap (λ k. take k (x ∷ xs)) {x = suc m + n} {y = suc (m + n)} (omega arith)
      ∙ ap (λ t. x ∷ t) (take-add m n xs)

  take-all : (n : ℕ) (xs : List A) → length xs ≤ n → take n xs ≡ xs
  take-all zero [] h = refl
  take-all (suc n) [] h = refl
  take-all zero (x ∷ xs) h = absurd (omega arith)
  take-all (suc n) (x ∷ xs) h = ap (λ t. x ∷ t) (take-all n xs (omega arith))

  -- Each value of the key is at least the next one.
  abbrev pub NewestFirst : (A → ℕ) → List A → Type 0
  NewestFirst key [] = Unit
  NewestFirst key (x ∷ xs) = All (λ y. key y ≤ key x) xs × NewestFirst key xs

  All-insert_desc :
      (ties : A → A → Bool) (key : A → ℕ) (n : ℕ) (x : A) (xs : List A)
      → key x ≤ n
      → All (λ y. key y ≤ n) xs
      → All (λ y. key y ≤ n) (insert_desc ties key x xs)
  unfolding insert_desc
  All-insert_desc ties key n x [] h hs = (h, tt)
  All-insert_desc ties key n x (y ∷ ys) h hs = elim (Bool-cases (goes_first ties key x y)) [
    | inl first ↦ rw first (h, hs)
    | inr later ↦ rw later (hs.0, All-insert_desc ties key n x ys h hs.1)
  ]

  All-le :
      (key : A → ℕ) (m n : ℕ) (xs : List A)
      → m ≤ n
      → All (λ y. key y ≤ m) xs
      → All (λ y. key y ≤ n) xs
  All-le key m n [] h hs = tt
  All-le key m n (x ∷ xs) h hs = (omega (arith, hs.0), All-le key m n xs h hs.1)

  insert_desc-NewestFirst :
      (ties : A → A → Bool) (key : A → ℕ) (x : A) (xs : List A)
      → NewestFirst key xs
      → NewestFirst key (insert_desc ties key x xs)
  unfolding insert_desc
  insert_desc-NewestFirst ties key x [] h = (tt, tt)
  insert_desc-NewestFirst ties key x (y ∷ ys) (below, h) =
      elim (Bool-cases (goes_first ties key x y)) [
        | inl first ↦
            let larger : key y ≤ key x = ground arith in
            rw first ((larger, All-le key (key y) (key x) ys larger below), (below, h))
        | inr later ↦ rw later (
          All-insert_desc ties key (key y) x ys (ground arith) below,
          insert_desc-NewestFirst ties key x ys h,
        )
      ]

  pub order_by_desc-NewestFirst :
      (ties : A → A → Bool) (key : A → ℕ) (xs : List A)
      → NewestFirst key (order_by_desc ties key xs)
  unfolding order_by_desc
  order_by_desc-NewestFirst ties key [] = tt
  order_by_desc-NewestFirst ties key (x ∷ xs) =
      insert_desc-NewestFirst ties key x (order_by_desc ties key xs)
        (order_by_desc-NewestFirst ties key xs)

  count-insert_desc :
      (ties : A → A → Bool) (key : A → ℕ) (q : A → Bool) (x : A) (xs : List A)
      → count q (insert_desc ties key x xs) ≡ (if q x then 1 else 0) + count q xs
  unfolding insert_desc count
  count-insert_desc ties key q x [] = refl
  count-insert_desc ties key q x (y ∷ ys) = elim (Bool-cases (goes_first ties key x y)) [
    | inl first ↦ rw first refl
    | inr later ↦ rw later (omega (arith, count-insert_desc ties key q x ys))
  ]

  -- The order keeps how often each row is there.
  pub count-order_by_desc :
      (ties : A → A → Bool) (key : A → ℕ) (q : A → Bool) (xs : List A)
      → count q (order_by_desc ties key xs) ≡ count q xs
  unfolding order_by_desc count
  count-order_by_desc ties key q [] = refl
  count-order_by_desc ties key q (x ∷ xs) =
      count-insert_desc ties key q x (order_by_desc ties key xs)
      ∙ ap (λ n. (if q x then 1 else 0) + n) (count-order_by_desc ties key q xs)

  length-count : (xs : List A) → length xs ≡ count (λ _. true) xs
  unfolding count
  length-count [] = refl
  length-count (x ∷ xs) = omega (arith, length-count xs)

  length-order_by_desc :
      (ties : A → A → Bool) (key : A → ℕ) (xs : List A)
      → length (order_by_desc ties key xs) ≡ length xs
  length-order_by_desc ties key xs =
      length-count (order_by_desc ties key xs)
      ∙ (count-order_by_desc ties key (λ _. true) xs ∙ sym (length-count xs))

  length-select : (p : A → Bool) (rows : List A) → length (select p rows) ≡ count p rows
  unfolding select count
  length-select p [] = refl
  length-select p (x ∷ rows) = ground (arith, length-select p rows)

  -- An order of the selected rows lists as many as there are.
  pub length-ordered :
      (ties : A → A → Bool) (key : A → ℕ) (p : A → Bool) (rows : List A)
      → length (order_by_desc ties key (select p rows)) ≡ count p rows
  length-ordered ties key p rows =
      length-order_by_desc ties key (select p rows) ∙ length-select p rows

module _ {ℓ κ} {A : Type ℓ} {B : Type κ} (f : A → B) (size : ℕ) (xs : List A) where
  abbrev pub page_of : ℕ → List B
  page_of page = map f (limit size (offset ((page - 1) * size) xs))

  pages-take : (n : ℕ) → pages page_of n ≡ map f (take (n * size) xs)
  pages-take zero = ap (λ k. map f (take k xs)) {x = 0} {y = 0 * size} (omega arith)
  pages-take (suc n) =
      let start : (suc n - 1) * size ≡ n * size =
        ap (λ k. k * size) {x = suc n - 1} (omega arith) in
      let next : limit size (offset ((suc n - 1) * size) xs) ≡ take size (drop (n * size) xs) =
        limit-take size (offset ((suc n - 1) * size) xs)
        ∙ ap (take size) (offset-drop ((suc n - 1) * size) xs ∙ ap (λ k. drop k xs) start) in
      (λ i. pages-take n i ++ map f (next i))
      ∙ sym (map-append f (take (n * size) xs) (take size (drop (n * size) xs)))
      ∙ ap (map f) (sym (take-add (n * size) size xs))
      ∙ ap (λ k. map f (take k xs)) (sym (suc-mul n size))

  -- Enough pages list everything, in order and once.
  pub pages-all : (n : ℕ) → length xs ≤ n * size → pages page_of n ≡ map f xs
  pages-all n h = pages-take n ∙ ap (map f) (take-all (n * size) xs h)
