-- ===== src/Table/Laws.antt =====
-- Laws of the SQL statements: lookups after an insert and an update, and counts and sums over the
-- rows. With them the tables stay shut in the services' proofs.
use baste.Prelude.{
  ℕ, ◌+◌, ◌≡◌, refl, ap, Bool, Option, none, some, List, [], ◌∷◌, ◌++◌, arith, ◌==◌, if◌then◌else◌,
  map_option, is_some, ◌||◌,
}
use baste.Prelude.Int.{ℤ, pos, ◌+ℤ◌, int_laws}
use baste.Table.{
  Table, find_row, update_rows, count_rows, find, update, insert, count_where, first_row,
  select_one,
}

abbrev pub or_else {ℓ} : {A : Type ℓ} → Option A → Option A → Option A
or_else none o = o
or_else (some a) o = some a

module _ {ℓ} {A : Type ℓ} where
  pub find-update :
      (t : Table A) (k j : ℕ) (f : A → A)
      → find (update t k f) j ≡ (if k == j then map_option f (find t j) else find t j)
  unfolding find update
  find-update t k j f = go t.rows
    where
      go :
          (l : List (ℕ × A))
          → find_row j (update_rows k f l)
            ≡ (if k == j then map_option f (find_row j l) else find_row j l)
      go [] = ground arith
      go ((i, a) ∷ l) = ground (arith, go l)

  pub find-insert :
      (t : Table A) (a : A) (j : ℕ)
      → find (insert t a) j ≡ or_else (find t j) (if t.next_id == j then some a else none)
  unfolding find insert
  find-insert t a j = go t.rows
    where
      go :
          (l : List (ℕ × A))
          → find_row j (l ++ (t.next_id, a) ∷ [])
            ≡ or_else (find_row j l) (if t.next_id == j then some a else none)
      go [] = ground arith
      go ((i, b) ∷ l) = ground (arith, go l)

  -- Whether a query finds a row, after an insert.
  pub some-insert :
      (p : ℕ → A → Bool) (t : Table A) (a : A)
      → is_some (select_one p (insert t a)) ≡ is_some (select_one p t) || p t.next_id a
  unfolding select_one insert
  some-insert p t a = go t.rows
    where
      go :
          (l : List (ℕ × A))
          → is_some (first_row p (l ++ (t.next_id, a) ∷ []))
            ≡ is_some (first_row p l) || p t.next_id a
      go [] = ground arith
      go ((i, b) ∷ l) = ground (arith, go l)

  -- A row that a query finds stays the first one after an insert.
  pub select_one-insert :
      (p : ℕ → A → Bool) (t : Table A) (a : A)
      → select_one p (insert t a)
        ≡ or_else (select_one p t) (if p t.next_id a then some (t.next_id, a) else none)
  unfolding select_one insert
  select_one-insert p t a = go t.rows
    where
      go :
          (l : List (ℕ × A))
          → first_row p (l ++ (t.next_id, a) ∷ [])
            ≡ or_else (first_row p l) (if p t.next_id a then some (t.next_id, a) else none)
      go [] = ground arith
      go ((i, b) ∷ l) = ground (arith, go l)

  pub count-insert :
      (p : ℕ → A → Bool) (t : Table A) (a : A)
      → count_where p (insert t a) ≡ count_where p t + (if p t.next_id a then 1 else 0)
  unfolding count_where insert
  count-insert p t a = go t.rows
    where
      go :
          (l : List (ℕ × A))
          → count_rows p (l ++ (t.next_id, a) ∷ [])
            ≡ count_rows p l + (if p t.next_id a then 1 else 0)
      go [] = ground arith
      go ((i, b) ∷ l) = ground (arith, go l)

  pub count-update :
      (p : ℕ → A → Bool) (t : Table A) (k : ℕ) (f : A → A) (a : A)
      → find t k ≡ some a
      → count_where p (update t k f) + (if p k a then 1 else 0)
        ≡ count_where p t + (if p k (f a) then 1 else 0)
  unfolding count_where update find
  count-update p t k f a h = go t.rows h
    where
      go :
          (l : List (ℕ × A))
          → find_row k l ≡ some a
          → count_rows p (update_rows k f l) + (if p k a then 1 else 0)
            ≡ count_rows p l + (if p k (f a) then 1 else 0)
      go [] e = cc
      go ((i, b) ∷ l) e = ground (arith, go l)

  pub count-none : (p : ℕ → A → Bool) (t : Table A) → select_one p t ≡ none → count_where p t ≡ 0
  unfolding count_where select_one
  count-none p t h = go t.rows h
    where
      go : (l : List (ℕ × A)) → first_row p l ≡ none → count_rows p l ≡ 0
      go [] e = refl
      go ((i, b) ∷ l) e = ground (arith, go l)

  pub update-missing : (t : Table A) (k : ℕ) (f : A → A) → find t k ≡ none → update t k f ≡ t
  unfolding update find
  update-missing t k f h = ap (λ l. record { rows = l; next_id = t.next_id }) (go t.rows h)
    where
      go : (l : List (ℕ × A)) → find_row k l ≡ none → update_rows k f l ≡ l
      go [] e = refl
      go ((i, b) ∷ l) e = ground (arith, go l)

-- The sum of a money column over all rows.
sum_rows {ℓ} : {A : Type ℓ} → (A → ℤ) → List (ℕ × A) → ℤ
sum_rows g [] = pos 0
sum_rows g ((_, a) ∷ l) = g a +ℤ sum_rows g l

module _ {ℓ} {A : Type ℓ} (g : A → ℤ) where
  pub sum_column : Table A → ℤ
  unfolding sum_rows
  sum_column t = sum_rows g t.rows

  pub sum-insert : (t : Table A) (a : A) → sum_column (insert t a) ≡ sum_column t +ℤ g a
  unfolding sum_column insert
  sum-insert t a = go t.rows
    where
      go : (l : List (ℕ × A)) → sum_rows g (l ++ (t.next_id, a) ∷ []) ≡ sum_rows g l +ℤ g a
      go [] = omega int_laws
      go ((i, b) ∷ l) = rw (go l) (omega int_laws)

  pub sum-update :
      (t : Table A) (k : ℕ) (f : A → A) (a : A)
      → find t k ≡ some a
      → sum_column (update t k f) +ℤ g a ≡ sum_column t +ℤ g (f a)
  unfolding sum_column update find
  sum-update t k f a h = go t.rows h
    where
      go :
          (l : List (ℕ × A))
          → find_row k l ≡ some a
          → sum_rows g (update_rows k f l) +ℤ g a ≡ sum_rows g l +ℤ g (f a)
      go [] e = cc
      go ((i, b) ∷ l) e = grind (int_laws, go l)
