-- ===== src/Table/Queries.antt =====
-- What a query says of the rows that are found by their keys.
use baste.Prelude.{
  ℕ, ◌≡◌, refl, Bool, true, false, none, some, List, [], ◌∷◌, All, arith, keep, inl, inr,
  Bool-cases, length, ◌==◌, subst,
}
use baste.Table.{count_where, count_rows, Table, find, find_row, select, select_one}
use baste.Table.Deletes.{select_one-none}

module _ {A : Type 0} where
  All-find :
      (P : ℕ × A → Type 0) (t : Table A) (k : ℕ) (a : A)
      → All P t.rows
      → find t k ≡ some a
      → P (k, a)
  unfolding find find_row
  All-find P t k a h e = go t.rows h e
    where
      go : (l : List (ℕ × A)) → All P l → find_row k l ≡ some a → P (k, a)
      go [] h e = cc
      go ((j, b) ∷ l) h e = elim (Bool-cases (j == k)) [
        | inl here ↦ subst P (ground (arith, here, e)) h.0
        | inr later ↦ go l h.1 (ground (arith, later, e))
      ]

  -- A row that is found by its key and passes the test of a query is among the rows of the query.
  pub All-select :
      (P : ℕ × A → Type 0) (p : ℕ → A → Bool) (t : Table A) (k : ℕ) (a : A)
      → All P (select p t)
      → find t k ≡ some a
      → p k a ≡ true
      → P (k, a)
  unfolding find select find_row keep
  All-select P p t k a h e passes = go t.rows h e
    where
      go : (l : List (ℕ × A)) → All P (keep (λ r. p r.0 r.1) l) → find_row k l ≡ some a → P (k, a)
      go [] h e = cc
      go ((j, b) ∷ l) h e = elim (Bool-cases (j == k)) [
        | inl here ↦ elim (Bool-cases (p j b)) [
          | inl taken ↦ subst P (ground (arith, here, e)) ((rw taken at h).0)
          | inr dropped ↦ absurd (ground (arith, here, e, dropped, passes))
        ]
        | inr later ↦ elim (Bool-cases (p j b)) [
          | inl taken ↦ go l ((rw taken at h).1) (ground (arith, later, e))
          | inr dropped ↦ go l (rw dropped at h) (ground (arith, later, e))
        ]
      ]

  -- No row that is found by its key passes the test of a query that finds none.
  pub select_one-misses :
      (p : ℕ → A → Bool) (t : Table A) (k : ℕ) (a : A)
      → select_one p t ≡ none
      → find t k ≡ some a
      → p k a ≡ false
  select_one-misses p t k a h e =
      All-find (λ r. p r.0 r.1 ≡ false) t k a (select_one-none p t (rw h refl)) e

  pub length-select : (p : ℕ → A → Bool) (t : Table A) → length (select p t) ≡ count_where p t
  unfolding select count_where count_rows keep
  length-select p t = go t.rows
    where
      go : (l : List (ℕ × A)) → length (keep (λ r. p r.0 r.1) l) ≡ count_rows p l
      go [] = refl
      go ((i, a) ∷ l) = ground (arith, go l)
