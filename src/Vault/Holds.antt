-- ===== src/Vault/Holds.antt =====
-- When the tables hold a vault, and that a new version and a new key keep it so.
use phantom_share.Prelude.{
  ℕ, zero, suc, ◌-◌, ◌<◌, ◌≡◌, ◌⊎◌, inl, inr, refl, sym, ap, ◌∙◌, String, true, some, List, [], ◌∷◌,
  ◌++◌, length, length-append, ltb, arith, Bool-cases,
}
use phantom_share.Result.{ok, or_raise, >>=-eq-ok, or_raise-eq-ok, ok-injective}
use phantom_share.Sql.{select_one, exists}
use phantom_share.Sql.Laws.{exists-select_one}
use phantom_share.Sql.Counting.{exists-max_of}
use phantom_share.Schema.{Db, SecretRow, version_is, version_of}
use phantom_share.Crypto.{Primitives}
use phantom_share.Content.{open_current, open_version, IsManaged, number}
use phantom_share.Content.Laws.{open_current-open_version}
use phantom_share.Keys.Rotation.{Rotated}
use phantom_share.Versions.Update.{Appended}
use phantom_share.Secrets.Retrieve.Burn.{left, remaining}
use phantom_share.Vault.{Vault, nth}
use phantom_share.Vault.Reading.{Kept}

module _ (prims : Primitives) (id : ℕ) where
  -- The secret is managed, its versions are those of the vault, from 1 on, each opens to its text, and
  -- the views that are left are those of the vault.
  pub record Holds (db : Db) (v : Vault) : Type 0 where
    pub managed : IsManaged id db
    pub last : managed.secret.current_version ≡ length v.texts
    pub some_text : 0 < length v.texts
    pub each :
        (n : ℕ) (p : String) → nth n v.texts ≡ some p → open_version prims id (suc n) db ≡ ok p
    pub views : remaining id db ≡ v.views

nth-append :
    (n : ℕ) (texts : List String) (p q : String)
    → nth n (texts ++ p ∷ []) ≡ some q
    → (nth n texts ≡ some q) ⊎ ((n ≡ length texts) × (p ≡ q))
nth-append zero [] p q h = inr (refl, cc)
nth-append (suc n) [] p q h = cc
nth-append zero (t ∷ texts) p q h = inl h
nth-append (suc n) (t ∷ texts) p q h = elim (nth-append n texts p q h) [
  | inl old ↦ inl old
  | inr (e, same) ↦ inr (omega arith, same)
]

pub nth_total :
    (n : ℕ) (texts : List String) → n < length texts → (p : String) × (nth n texts ≡ some p)
nth_total n [] h = absurd (omega arith)
nth_total zero (p ∷ texts) h = (p, refl)
nth_total (suc n) (p ∷ texts) h = nth_total n texts (omega arith)

open_version-exists :
    (prims : Primitives) (id n : ℕ) (db : Db) {p : String}
    → open_version prims id n db ≡ ok p
    → exists (version_is id n) db.secret_versions ≡ true
unfolding open_version
open_version-exists prims id n db {p} h =
    let (row, e, _) =
      >>=-eq-ok (or_raise (select_one (version_is id n) db.secret_versions) _) _ {b = p} h in
    exists-select_one (version_is id n) db.secret_versions {r = row} (or_raise-eq-ok _ _ e)

-- No version beyond the current one opens.
no_version :
    (prims : Primitives) (id : ℕ) (db : Db) (m : IsManaged id db) (n : ℕ) (p : String)
    → open_version prims id n db ≡ ok p
    → m.secret.current_version < n
    → ⊥
no_version prims id db m n p opens beyond =
    let there = open_version-exists prims id n db {p = p} opens in
    let free =
      exists-max_of (version_of id) (version_is id n) number n db.secret_versions
        (λ r e. ground arith) (omega (arith, m.last_version)) in
    cc

module _ (prims : Primitives) (id : ℕ) (db : Db) (v : Vault) (h : Holds prims id db v) where
  row_views : (r : SecretRow) → r ≡ h.managed.secret → left (some r) ≡ v.views
  unfolding remaining
  row_views r e = ap (λ x. left (some x)) e ∙ (sym (ap left h.managed.secret_found) ∙ h.views)

  -- A new version with the given text is the next text of the vault.
  pub Appended-Holds :
      (p : String) (db' : Db)
      → Appended prims id p h.managed.secret db db'
      → Holds prims id db' (record v { texts = v.texts ++ p ∷ [] })
  unfolding remaining
  Appended-Holds p db' a =
      let longer = length-append v.texts (p ∷ []) in
      let last' : a.managed.secret.current_version ≡ length (v.texts ++ p ∷ []) =
        ap (λ r. r.current_version) a.row ∙ (omega (arith, h.last, longer)) in
      record {
        managed = a.managed;
        last = last';
        some_text = omega (arith, longer);
        each = λ n q e. elim (nth-append n v.texts p q e) [
          | inl old ↦ a.history (suc n) q (h.each n q old)
          | inr (at_end, same) ↦
              let here : suc n ≡ a.managed.secret.current_version =
                omega (arith, last', longer, at_end) in
              ap (λ k. open_version prims id k db') here
              ∙ (sym (open_current-open_version prims id db' a.managed) ∙ (a.shown ∙ ap ok same))
        ];
        views =
            ap left a.managed.secret_found
            ∙ (ap (λ r. r.max_views - r.view_count) a.row ∙ row_views h.managed.secret refl);
      }

  -- A new key changes nothing of the vault.
  pub Rotated-Holds : (db' : Db) → Rotated prims id h.managed.secret db db' → Holds prims id db' v
  unfolding remaining
  Rotated-Holds db' a = record {
    managed = a.managed;
    last = ap (λ r. r.current_version) a.row ∙ h.last;
    some_text = h.some_text;
    each = λ n q e. a.history (suc n) q (h.each n q e);
    views =
        ap left a.managed.secret_found
        ∙ (ap (λ r. r.max_views - r.view_count) a.row ∙ row_views h.managed.secret refl);
  }

  -- A view that is not the last leaves the texts and fewer views.
  pub Kept-Holds :
      (n : ℕ) (db' : Db)
      → Kept id h.managed.secret db db'
      → remaining id db' ≡ n
      → Holds prims id db' (record v { views = n })
  unfolding open_version
  Kept-Holds n db' k e = record {
    managed = k.managed;
    last = k.same_version ∙ h.last;
    some_text = h.some_text;
    each = λ i q there. rw (k.keys, k.versions) (h.each i q there);
    views = e;
  }

  -- A version that opens is one of the vault, with that text.
  pub nth-open_version :
      (n : ℕ) (p : String) → open_version prims id (suc n) db ≡ ok p → nth n v.texts ≡ some p
  nth-open_version n p opens = elim (Bool-cases (ltb n (length v.texts))) [
    | inl inside ↦
        let (q, there) = nth_total n v.texts (ground arith) in
        there ∙ ap some (ok-injective (sym (h.each n q there) ∙ opens))
    | inr outside ↦
        absurd (no_version prims id db h.managed (suc n) p opens (ground (arith, h.last)))
  ]

  -- The current text is the last of the vault.
  pub last_text :
      (p : String)
      → open_current prims id db ≡ ok p
      → (n : ℕ) × (length v.texts ≡ suc n) × (nth n v.texts ≡ some p)
  last_text p shown =
      let n = length v.texts - 1 in
      let e : length v.texts ≡ suc n = omega (arith, h.some_text) in
      (
        n,
        e,
        nth-open_version n p (
            ap (λ k. open_version prims id k db) (sym (h.last ∙ e))
            ∙ (sym (open_current-open_version prims id db h.managed) ∙ shown)),
      )
