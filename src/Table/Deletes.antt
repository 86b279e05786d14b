-- ===== src/Table/Deletes.antt =====
-- Lookups after a DELETE and after an UPDATE of several rows.
use baste.Prelude.{
  ◌<◌, is_in, ℕ, suc, ◌≡◌, refl, Bool, true, false, none, some, Option, List, [], ◌∷◌, arith, keep,
  map, All, if◌then◌else◌, map_option, is_some, inl, inr, Bool-cases,
}
use baste.Table.{select, Table, find_row, find, first_row, select_one, update_where, delete_where}
use baste.Table.Keys.{Keyed, IsKeyed, find-below}

-- The row, unless it is deleted.
abbrev pub spared {ℓ} : {A : Type ℓ} → (ℕ → A → Bool) → ℕ → Option A → Option A
spared p k none = none
spared p k (some a) = if p k a then none else some a

module _ {ℓ} {A : Type ℓ} where
  find-keep :
      (lo hi : ℕ) (p : ℕ → A → Bool) (k : ℕ) (l : List (ℕ × A))
      → Keyed lo hi l
      → find_row k (keep (λ r. if p r.0 r.1 then false else true) l) ≡ spared p k (find_row k l)
  unfolding find_row keep
  find-keep lo hi p k [] h = refl
  find-keep lo hi p k ((j, a) ∷ l) h = elim (Bool-cases (p j a)) [
    | inl gone ↦
        rw (gone, keep)
          (ground (arith, find-keep (suc j) hi p k l h.1, find-below (suc j) hi k l h.1))
    | inr stays ↦ rw (stays, keep) (ground (arith, find-keep (suc j) hi p k l h.1))
  ]

  pub find-delete_where :
      (p : ℕ → A → Bool) (t : Table A) (k : ℕ)
      → IsKeyed t
      → find (delete_where p t) k ≡ spared p k (find t k)
  unfolding find delete_where
  find-delete_where p t k h = find-keep 0 t.next_id p k t.rows h

  pub find-update_where :
      (p : ℕ → A → Bool) (f : A → A) (t : Table A) (k : ℕ)
      → find (update_where p f t) k ≡ map_option (λ a. if p k a then f a else a) (find t k)
  unfolding find update_where
  find-update_where p f t k = go t.rows
    where
      go :
          (l : List (ℕ × A))
          → find_row k (map (λ r. (r.0, if p r.0 r.1 then f r.1 else r.1)) l)
            ≡ map_option (λ a. if p k a then f a else a) (find_row k l)
      go [] = refl
      go ((j, a) ∷ l) = ground (arith, go l)

  -- No row passes the test of a query that finds none.
  pub select_one-none :
      (p : ℕ → A → Bool) (t : Table A)
      → is_some (select_one p t) ≡ false
      → All (λ r. p r.0 r.1 ≡ false) t.rows
  unfolding select_one
  select_one-none p t h = go t.rows h
    where
      go : (l : List (ℕ × A)) → is_some (first_row p l) ≡ false → All (λ r. p r.0 r.1 ≡ false) l
      go [] e = tt
      go ((j, a) ∷ l) e = elim (Bool-cases (p j a)) [
        | inl found ↦ absurd (ground (arith, e, found))
        | inr misses ↦ (misses, go l (ground (arith, e, misses)))
      ]

-- The ids of the rows of a query.
abbrev pub ids {ℓ} : {A : Type ℓ} → List (ℕ × A) → List ℕ
ids rows = map (λ r. r.0) rows

module _ {A : Type 0} where
  is_in-below :
      (lo hi k : ℕ) (p : ℕ × A → Bool) (l : List (ℕ × A))
      → Keyed lo hi l
      → k < lo
      → is_in (ids (keep p l)) k ≡ false
  unfolding is_in keep
  is_in-below lo hi k p [] h b = refl
  is_in-below lo hi k p ((j, a) ∷ l) h b = ground (arith, is_in-below (suc j) hi k p l h.1)

  -- An id is among those of a query exactly if the row of that key passes its test.
  pub is_in-select :
      (p : ℕ → A → Bool) (t : Table A) (k : ℕ)
      → IsKeyed t
      → is_in (ids (select p t)) k ≡ (elim (find t k) [ none ↦ false | some a ↦ p k a ])
  unfolding is_in select find keep find_row
  is_in-select p t k h = go 0 t.rows h
    where
      go :
          (lo : ℕ) (l : List (ℕ × A))
          → Keyed lo t.next_id l
          → is_in (ids (keep (λ r. p r.0 r.1) l)) k
            ≡ (elim (find_row k l) [ none ↦ false | some a ↦ p k a ])
      go lo [] e = refl
      go lo ((j, a) ∷ l) e = elim (Bool-cases (p j a)) [
        | inl yes_ ↦
            rw (yes_, keep)
              (ground (
                arith,
                go (suc j) l e.1,
                yes_,
                is_in-below (suc j) t.next_id k (λ r. p r.0 r.1) l e.1,
                find-below (suc j) t.next_id k l e.1,
              ))
        | inr no_ ↦
            rw (no_, keep)
              (ground (
                arith,
                go (suc j) l e.1,
                no_,
                is_in-below (suc j) t.next_id k (λ r. p r.0 r.1) l e.1,
                find-below (suc j) t.next_id k l e.1,
              ))
      ]
