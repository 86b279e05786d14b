-- ===== src/Table/Keys.antt =====
-- Primary keys: strictly increasing in the rows, and below the counter. So a row that a query
-- returns is the row of its key.
use baste.Prelude.{
  ℕ, suc, ◌+◌, ◌<◌, ◌≤◌, ◌≡◌, refl, Bool, true, none, some, List, [], ◌∷◌, ◌++◌, arith, ◌==◌, keep,
  take, zero, All, inl, inr, Bool-cases,
}
use baste.Table.{
  Table, find_row, update_rows, find, update, insert, first_row, select_one, delete_where, select,
}

abbrev pub Keyed {ℓ} : {A : Type ℓ} → ℕ → ℕ → List (ℕ × A) → Type 0
Keyed lo hi [] = lo ≤ hi
Keyed lo hi ((j, a) ∷ l) = (lo ≤ j) × Keyed (suc j) hi l

abbrev pub IsKeyed {ℓ} : {A : Type ℓ} → Table A → Type 0
IsKeyed t = Keyed 0 t.next_id t.rows

module _ {ℓ} {A : Type ℓ} where
  Keyed-weaken : (lo lo' hi : ℕ) (l : List (ℕ × A)) → lo' ≤ lo → Keyed lo hi l → Keyed lo' hi l
  Keyed-weaken lo lo' hi [] h k = omega arith
  Keyed-weaken lo lo' hi ((j, a) ∷ l) h k = (omega arith, k.1)

  pub find-below : (lo hi k : ℕ) (l : List (ℕ × A)) → Keyed lo hi l → k < lo → find_row k l ≡ none
  unfolding find_row
  find-below lo hi k [] h b = refl
  find-below lo hi k ((j, a) ∷ l) h b = ground (arith, find-below (suc j) hi k l h.1)

  Keyed-insert :
      (lo hi : ℕ) (a : A) (l : List (ℕ × A)) → Keyed lo hi l → Keyed lo (hi + 1) (l ++ (hi, a) ∷ [])
  Keyed-insert lo hi a [] h = omega arith
  Keyed-insert lo hi a ((j, b) ∷ l) h = (h.0, Keyed-insert (suc j) hi a l h.1)

  pub insert-IsKeyed : (t : Table A) (a : A) → IsKeyed t → IsKeyed (insert t a)
  unfolding insert
  insert-IsKeyed t a h = Keyed-insert 0 t.next_id a t.rows h

  Keyed-update :
      (lo hi k : ℕ) (f : A → A) (l : List (ℕ × A)) → Keyed lo hi l → Keyed lo hi (update_rows k f l)
  unfolding update_rows
  Keyed-update lo hi k f [] h = h
  Keyed-update lo hi k f ((j, b) ∷ l) h = elim (Bool-cases (j == k)) [
    | inl e ↦ rw e h
    | inr e ↦ rw e (h.0, Keyed-update (suc j) hi k f l h.1)
  ]

  pub update-IsKeyed : (t : Table A) (k : ℕ) (f : A → A) → IsKeyed t → IsKeyed (update t k f)
  unfolding update
  update-IsKeyed t k f h = Keyed-update 0 t.next_id k f t.rows h

  Keyed-keep :
      (lo hi : ℕ) (p : ℕ × A → Bool) (l : List (ℕ × A)) → Keyed lo hi l → Keyed lo hi (keep p l)
  unfolding keep
  Keyed-keep lo hi p [] h = h
  Keyed-keep lo hi p ((j, b) ∷ l) h = elim (Bool-cases (p (j, b))) [
    | inl e ↦ rw (e, keep) (h.0, Keyed-keep (suc j) hi p l h.1)
    | inr e ↦
        rw (e, keep) (Keyed-weaken (suc j) lo hi _ (omega arith) (Keyed-keep (suc j) hi p l h.1))
  ]

  pub delete_where-IsKeyed :
      (p : ℕ → A → Bool) (t : Table A) → IsKeyed t → IsKeyed (delete_where p t)
  unfolding delete_where
  delete_where-IsKeyed p t h = Keyed-keep 0 t.next_id _ t.rows h

  pub select-IsKeyed : (p : ℕ → A → Bool) (t : Table A) → IsKeyed t → Keyed 0 t.next_id (select p t)
  unfolding select
  select-IsKeyed p t h = Keyed-keep 0 t.next_id _ t.rows h

  first_row-find :
      (lo hi : ℕ) (p : ℕ → A → Bool) (l : List (ℕ × A)) (k : ℕ) (a : A)
      → Keyed lo hi l
      → first_row p l ≡ some (k, a)
      → (lo ≤ k) × (find_row k l ≡ some a) × (p k a ≡ true)
  unfolding first_row find_row
  first_row-find lo hi p [] k a h e = cc
  first_row-find lo hi p ((j, b) ∷ l) k a h e =
      ground (arith, first_row-find (suc j) hi p l k a h.1)

  -- A row that a query returns passes its test and is the row of its key.
  pub select_one-find :
      (p : ℕ → A → Bool) (t : Table A) (k : ℕ) (a : A)
      → IsKeyed t
      → select_one p t ≡ some (k, a)
      → (find t k ≡ some a) × (p k a ≡ true)
  unfolding select_one find
  select_one-find p t k a h e = let r = first_row-find 0 t.next_id p t.rows k a h e in (r.1, r.2)

  keep-find :
      (lo hi : ℕ) (p : ℕ × A → Bool) (l m : List (ℕ × A))
      → Keyed lo hi l
      → ((k : ℕ) → lo ≤ k → find_row k m ≡ find_row k l)
      → All (λ r. (find_row r.0 m ≡ some r.1) × (p r ≡ true)) (keep p l)
  unfolding keep find_row
  keep-find lo hi p [] m h e = tt
  keep-find lo hi p ((j, b) ∷ l) m h e =
      let rest = keep-find (suc j) hi p l m h.1 (λ k hk. agree k hk) in
      elim (Bool-cases (p (j, b))) [
        | inl passes ↦ rw (passes, keep) ((ground (arith, e j h.0), passes), rest)
        | inr fails ↦ rw (fails, keep) rest
      ]
    where
      agree : (k : ℕ) → suc j ≤ k → find_row k m ≡ find_row k l
      agree k hk = ground (arith, e k)

  pub select-find :
      (p : ℕ → A → Bool) (t : Table A)
      → IsKeyed t
      → All (λ r. (find t r.0 ≡ some r.1) × (p r.0 r.1 ≡ true)) (select p t)
  unfolding select find
  select-find p t h = keep-find 0 t.next_id (λ r. p r.0 r.1) t.rows t.rows h (λ k hk. refl)

  Keyed-le : (lo hi : ℕ) (l : List (ℕ × A)) → Keyed lo hi l → lo ≤ hi
  Keyed-le lo hi [] h = h
  Keyed-le lo hi ((j, b) ∷ l) h = omega (arith, Keyed-le (suc j) hi l h.1)

  pub Keyed-take : (lo hi n : ℕ) (l : List (ℕ × A)) → Keyed lo hi l → Keyed lo hi (take n l)
  Keyed-take lo hi zero l h = Keyed-le lo hi l h
  Keyed-take lo hi (suc n) [] h = h
  Keyed-take lo hi (suc n) ((j, b) ∷ l) h = (h.0, Keyed-take (suc j) hi n l h.1)
