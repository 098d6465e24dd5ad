-- ===== src/Sql/Laws.antt =====
-- What a SELECT finds after each statement.
use phantom_share.Prelude.{
  ◌≡◌, refl, Bool, true, false, Option, none, some, List, [], ◌∷◌, arith, if◌then◌else◌,
}
use phantom_share.Sql.{select_one, select, insert, update, delete, exists}

module _ {ℓ} {A : Type ℓ} where
  abbrev pub or_else : Option A → Option A → Option A
  or_else none b = b
  or_else (some a) b = some a

  abbrev pub patch : (A → Bool) → (A → A) → Option A → Option A
  patch q f none = none
  patch q f (some r) = some (if q r then f r else r)

  -- A new row is found only if no older one is.
  pub select_one-insert :
      (p : A → Bool) (r : A) (rows : List A)
      → select_one p (insert r rows) ≡ or_else (select_one p rows) (if p r then some r else none)
  unfolding select_one insert
  select_one-insert p r [] = refl
  select_one-insert p r (x ∷ rows) = ground (arith, select_one-insert p r rows)

  -- An update that does not touch what the SELECT tests changes the row that it finds.
  pub select_one-update :
      (p q : A → Bool) (f : A → A) (rows : List A)
      → ((r : A) → p (f r) ≡ p r)
      → select_one p (update q f rows) ≡ patch q f (select_one p rows)
  unfolding select_one update
  select_one-update p q f [] h = refl
  select_one-update p q f (x ∷ rows) h = ground (arith, h x, select_one-update p q f rows h)

  pub select_one-delete_self : (p : A → Bool) (rows : List A) → select_one p (delete p rows) ≡ none
  unfolding select_one delete
  select_one-delete_self p [] = refl
  select_one-delete_self p (x ∷ rows) = ground (arith, select_one-delete_self p rows)

  pub select_one-delete_ne :
      (p q : A → Bool) (rows : List A)
      → ((r : A) → p r ≡ true → q r ≡ false)
      → select_one p (delete q rows) ≡ select_one p rows
  unfolding select_one delete
  select_one-delete_ne p q [] h = refl
  select_one-delete_ne p q (x ∷ rows) h = ground (arith, h x, select_one-delete_ne p q rows h)

  -- A row that a SELECT returns passes its test.
  pub select_one_sound :
      (p : A → Bool) (rows : List A) {r : A} → select_one p rows ≡ some r → p r ≡ true
  unfolding select_one
  select_one_sound p [] h = cc
  select_one_sound p (x ∷ rows) {r} h = ground (arith, select_one_sound p rows {r = r})

  -- Where no row passes the test the SELECT finds nothing.
  pub select_one-none :
      (p : A → Bool) (rows : List A) → exists p rows ≡ false → select_one p rows ≡ none
  unfolding select_one exists
  select_one-none p [] h = refl
  select_one-none p (x ∷ rows) h = ground (arith, select_one-none p rows)

  pub exists-select_one :
      (p : A → Bool) (rows : List A) {r : A} → select_one p rows ≡ some r → exists p rows ≡ true
  unfolding select_one exists
  exists-select_one p [] h = cc
  exists-select_one p (x ∷ rows) {r} h = ground (arith, exists-select_one p rows {r = r})

  -- The row that a SELECT finds is the one that an UPDATE with the same test rewrites.
  pub select_one-update_self :
      (p : A → Bool) (f : A → A) (rows : List A) {r : A}
      → ((r : A) → p (f r) ≡ p r)
      → select_one p rows ≡ some r
      → select_one p (update p f rows) ≡ some (f r)
  select_one-update_self p f rows {r} h e =
      rw (select_one-update p p f rows h) (rw e (rw (select_one_sound p rows {r = r} e)))

  -- An UPDATE of other rows is not seen.
  pub select_one-update_ne :
      (p q : A → Bool) (f : A → A) (rows : List A) {r : A}
      → ((r : A) → p (f r) ≡ p r)
      → q r ≡ false
      → select_one p rows ≡ some r
      → select_one p (update q f rows) ≡ some r
  select_one-update_ne p q f rows h ne e = rw (select_one-update p q f rows h) (rw e (rw ne))

  -- An INSERT does not hide a row that was found, and is found where none was.
  pub select_one-insert_old :
      (p : A → Bool) (r : A) (rows : List A) {s : A}
      → select_one p rows ≡ some s
      → select_one p (insert r rows) ≡ some s
  select_one-insert_old p r rows e = rw (select_one-insert p r rows) (rw e)

  pub select_one-insert_new :
      (p : A → Bool) (r : A) (rows : List A)
      → exists p rows ≡ false
      → p r ≡ true
      → select_one p (insert r rows) ≡ some r
  select_one-insert_new p r rows fresh e =
      rw (select_one-insert p r rows) (rw (select_one-none p rows fresh) (rw e))

  pub exists-delete_self : (p : A → Bool) (rows : List A) → exists p (delete p rows) ≡ false
  unfolding exists delete
  exists-delete_self p [] = refl
  exists-delete_self p (x ∷ rows) = ground (arith, exists-delete_self p rows)

  -- A row under a new key comes and goes.
  pub delete-insert :
      (p : A → Bool) (r : A) (rows : List A)
      → p r ≡ true
      → exists p rows ≡ false
      → delete p (insert r (delete p rows)) ≡ rows
  unfolding exists delete insert
  delete-insert p r [] e h = rw e
  delete-insert p r (x ∷ rows) e h = ground (arith, delete-insert p r rows e)

  -- Nothing to delete.
  pub delete-none : (p : A → Bool) (rows : List A) → exists p rows ≡ false → delete p rows ≡ rows
  unfolding exists delete
  delete-none p [] h = refl
  delete-none p (x ∷ rows) h = ground (arith, delete-none p rows)

  -- A row that is inserted is there.
  pub exists-insert_new :
      (p : A → Bool) (r : A) (rows : List A) → p r ≡ true → exists p (insert r rows) ≡ true
  unfolding exists insert
  exists-insert_new p r [] h = rw h
  exists-insert_new p r (x ∷ rows) h = ground (arith, exists-insert_new p r rows h)

  pub exists-insert_other :
      (p : A → Bool) (r : A) (rows : List A)
      → p r ≡ false
      → exists p rows ≡ false
      → exists p (insert r rows) ≡ false
  unfolding exists insert
  exists-insert_other p r [] h e = rw h
  exists-insert_other p r (x ∷ rows) h e = ground (arith, exists-insert_other p r rows h)

  -- A deletion removes every row of a narrower condition too.
  pub exists-delete_narrow :
      (p q : A → Bool) (rows : List A)
      → ((r : A) → p r ≡ true → q r ≡ true)
      → exists p (delete q rows) ≡ false
  unfolding exists delete
  exists-delete_narrow p q [] h = refl
  exists-delete_narrow p q (x ∷ rows) h = ground (arith, h x, exists-delete_narrow p q rows h)

  pub exists-narrow :
      (p q : A → Bool) (rows : List A)
      → ((r : A) → p r ≡ true → q r ≡ true)
      → exists q rows ≡ false
      → exists p rows ≡ false
  unfolding exists
  exists-narrow p q [] h e = refl
  exists-narrow p q (x ∷ rows) h e = ground (arith, h x, exists-narrow p q rows h)

  pub exists-update :
      (p q : A → Bool) (f : A → A) (rows : List A)
      → ((r : A) → p (f r) ≡ p r)
      → exists p (update q f rows) ≡ exists p rows
  unfolding exists update
  exists-update p q f [] h = refl
  exists-update p q f (x ∷ rows) h = ground (arith, h x, exists-update p q f rows h)

  -- A row that a deletion keeps is found as before.
  pub select_one-delete_kept :
      (p q : A → Bool) (rows : List A) {r : A}
      → select_one p rows ≡ some r
      → q r ≡ false
      → select_one p (delete q rows) ≡ some r
  unfolding select_one delete
  select_one-delete_kept p q [] h e = cc
  select_one-delete_kept p q (x ∷ rows) {r} h e =
      ground (arith, select_one-delete_kept p q rows {r = r})

  -- An update of every row.
  pub select_one-update_every :
      (p : A → Bool) (f : A → A) (rows : List A) {r : A}
      → ((r : A) → p (f r) ≡ p r)
      → select_one p rows ≡ some r
      → select_one p (update (λ _. true) f rows) ≡ some (f r)
  select_one-update_every p f rows h e = rw (select_one-update p (λ _. true) f rows h) (rw e)

  -- A row that fails the test is not among the selected ones.
  pub select-insert_other :
      (p : A → Bool) (r : A) (rows : List A)
      → p r ≡ false
      → select p (insert r rows) ≡ select p rows
  unfolding select insert
  select-insert_other p r [] h = rw h
  select-insert_other p r (x ∷ rows) h = ground (arith, select-insert_other p r rows h)
