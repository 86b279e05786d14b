-- ===== src/Table.antt =====
-- A table of the database (database/schema.sql): rows behind their AUTO_INCREMENT primary key, in
-- the order of the key. The SQL statements that the services send are functions of it.
pub mod Laws
pub mod Keys
pub mod Deletes
pub mod Queries
use baste.Prelude.{
  ℕ, ◌+◌, ◌<◌, ◌≡◌, Bool, true, false, Option, none, some, List, [], ◌∷◌, ◌++◌, arith, ◌==◌,
  if◌then◌else◌, keep, map, map_option,
}

pub record Table {ℓ} (A : Type ℓ) : Type ℓ where
  pub rows : List (ℕ × A)
  pub next_id : ℕ

module _ {ℓ} {A : Type ℓ} where
  unfoldable pub find_row : ℕ → List (ℕ × A) → Option A
  find_row k [] = none
  find_row k ((j, a) ∷ l) = if j == k then some a else find_row k l

  unfoldable pub update_rows : ℕ → (A → A) → List (ℕ × A) → List (ℕ × A)
  update_rows k f [] = []
  update_rows k f ((j, a) ∷ l) = if j == k then (j, f a) ∷ l else (j, a) ∷ update_rows k f l

  -- The first row in key order that passes the test: `fetchone` after a SELECT.
  pub first_row : (ℕ → A → Bool) → List (ℕ × A) → Option (ℕ × A)
  first_row p [] = none
  first_row p ((j, a) ∷ l) = if p j a then some (j, a) else first_row p l

  -- SELECT … WHERE id = k
  unfoldable pub find : Table A → ℕ → Option A
  unfolding find_row
  find t k = find_row k t.rows

  -- UPDATE … SET … WHERE id = k; a primary key stands in one row.
  unfoldable pub update : Table A → ℕ → (A → A) → Table A
  unfolding update_rows
  update t k f = record t { rows = update_rows k f t.rows }

  -- INSERT; the new row's key is `t.next_id`, `cur.lastrowid`.
  unfoldable pub insert : Table A → A → Table A
  insert t a = record { rows = t.rows ++ (t.next_id, a) ∷ []; next_id = t.next_id + 1 }

  -- SELECT … WHERE p, all rows
  unfoldable pub select : (ℕ → A → Bool) → Table A → List (ℕ × A)
  select p t = keep (λ r. p r.0 r.1) t.rows

  unfoldable pub select_one : (ℕ → A → Bool) → Table A → Option (ℕ × A)
  unfolding first_row
  select_one p t = first_row p t.rows

  pub count_rows : (ℕ → A → Bool) → List (ℕ × A) → ℕ
  count_rows p [] = 0
  count_rows p ((j, a) ∷ l) = (if p j a then 1 else 0) + count_rows p l

  -- SELECT COUNT(*) … WHERE p
  unfoldable pub count_where : (ℕ → A → Bool) → Table A → ℕ
  unfolding count_rows
  count_where p t = count_rows p t.rows

  -- UPDATE … SET … WHERE p, all rows
  unfoldable pub update_where : (ℕ → A → Bool) → (A → A) → Table A → Table A
  update_where p f t = record t { rows = map (λ r. (r.0, if p r.0 r.1 then f r.1 else r.1)) t.rows }

  -- DELETE … WHERE p
  unfoldable pub delete_where : (ℕ → A → Bool) → Table A → Table A
  delete_where p t = record t { rows = keep (λ r. if p r.0 r.1 then false else true) t.rows }
