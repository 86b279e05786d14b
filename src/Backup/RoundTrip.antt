-- ===== src/Backup/RoundTrip.antt =====
-- services/backup_service.py: a dump restores what it was taken from.
use baste.Prelude.{
  ◌≡◌, refl, sym, subst, ap, ◌∙◌, Bool, true, false, not, ◌&&◌, Option, some, arith, List, [], ◌∷◌,
  ◌++◌, if◌then◌else◌, All, inl, inr, Bool-cases,
}
use baste.Text.{Text, text_eq, text_eq_sound, text_eq_refl}
use baste.Charge.{mem_text}
use mathlib.Core.List.{reverse, append_assoc, append-nil, reverse-cons}
use baste.Migrator.Names.{mem-append}
use baste.Backup.{
  tables_in_dependency_order, Row, Tables, Dump, dump_tables, create_backup_dict, get_rows,
  set_table, clear_tables, no_columns, insert_rows, fill_tables, commit_or_keep, restore_from_dict,
}

get-dump :
    (l : List Text) (d : Tables) (t : Text)
    → get_rows t (dump_tables l d) ≡ (if mem_text t l then d t else [])
unfolding dump_tables get_rows mem_text
get-dump [] d t = refl
get-dump (u ∷ l) d t = elim (Bool-cases (text_eq t u)) [
  | inl same ↦ rw (same, text_eq_sound t u same) refl
  | inr other ↦ rw other (get-dump l d t)
]

clear-lem :
    (l : List Text) (d : Tables) (t : Text)
    → clear_tables l d t ≡ (if mem_text t l then [] else d t)
unfolding clear_tables set_table mem_text
clear-lem [] d t = refl
clear-lem (u ∷ l) d t = ground (arith, clear-lem l (set_table u [] d) t)

abbrev pub distinct : List Text → Bool
distinct [] = true
distinct (t ∷ l) = not (mem_text t l) && distinct l

module _ (accepts : Text → Row → Bool) where
  -- Rows that an INSERT takes as they are.
  abbrev pub AreTaken : Text → List Row → Type 0
  AreTaken t rows = All (λ r. (no_columns r ≡ false) × (accepts t r ≡ true)) rows

  insert-lem :
      (t : Text) (rows : List Row) (d : Tables)
      → AreTaken t rows
      → (d' : Tables) × (insert_rows accepts t rows d ≡ some d')
        × ((u : Text) → d' u ≡ (if text_eq u t then d u ++ rows else d u))
  insert-lem t [] d h = (d, unfold insert_rows in refl, λ u. grown_nil u (text_eq u t))
    where
      grown_nil : (u : Text) (b : Bool) → d u ≡ (if b then d u ++ [] else d u)
      grown_nil u true = sym (append-nil (d u))
      grown_nil u false = refl
  insert-lem t (r ∷ rest) d h =
      let (d', run, at) = insert-lem t rest (set_table t (d t ++ r ∷ []) d) h.1 in
      (d', step run, λ u. at u ∙ grown u)
    where
      step :
          {o : Option Tables}
          → insert_rows accepts t rest (set_table t (d t ++ r ∷ []) d) ≡ o
          → insert_rows accepts t (r ∷ rest) d ≡ o
      step e = unfold insert_rows in rw (insert_rows, h.0.0, h.0.1) e

      grown :
          (u : Text)
          → (if text_eq u t
              then set_table t (d t ++ r ∷ []) d u ++ rest
              else set_table t (d t ++ r ∷ []) d u)
            ≡ (if text_eq u t then d u ++ r ∷ rest else d u)
      grown u = elim (Bool-cases (text_eq u t)) [
        | inl same ↦
            unfold set_table in rw (same, text_eq_sound u t same) (append_assoc (d t) (r ∷ []) rest)
        | inr other ↦ unfold set_table in rw other
      ]

  -- Every table of the list takes its rows of the dump.
  abbrev pub IsTaken : Dump → List Text → Type 0
  IsTaken data_tables l = All (λ t. AreTaken t (get_rows t data_tables)) l

  fill-lem :
      (l : List Text) (data_tables : Dump) (d : Tables)
      → distinct l ≡ true
      → IsTaken data_tables l
      → (d' : Tables) × (fill_tables accepts data_tables l d ≡ some d')
        × ((u : Text) → d' u ≡ (if mem_text u l then d u ++ get_rows u data_tables else d u))
  unfolding fill_tables
  fill-lem [] data_tables d h taken = (d, refl, λ u. unfold mem_text in refl)
  fill-lem (t ∷ l) data_tables d h taken =
      let (d1, first, at) = insert-lem t (get_rows t data_tables) d taken.0 in
      let (d', run, all_at) = fill-lem l data_tables d1 (ground (arith, h)) taken.1 in
      (d', rw (fill_tables, first) run, λ u. all_at u ∙ filled u d1 (at u))
    where
      absent : mem_text t l ≡ false
      absent = ground (arith, h)

      own :
          (d1 : Tables)
          → d1 t ≡ d t ++ get_rows t data_tables
          → (if mem_text t l then d1 t ++ get_rows t data_tables else d1 t)
            ≡ (if mem_text t (t ∷ l) then d t ++ get_rows t data_tables else d t)
      own d1 e = unfold mem_text in rw (absent, text_eq_refl t) e

      filled :
          (u : Text) (d1 : Tables)
          → d1 u ≡ (if text_eq u t then d u ++ get_rows t data_tables else d u)
          → (if mem_text u l then d1 u ++ get_rows u data_tables else d1 u)
            ≡ (if mem_text u (t ∷ l) then d u ++ get_rows u data_tables else d u)
      filled u d1 e = elim (Bool-cases (text_eq u t)) [
        | inl same ↦
            subst
              (λ v.
                (if mem_text v l then d1 v ++ get_rows v data_tables else d1 v)
                ≡ (if mem_text v (t ∷ l) then d v ++ get_rows v data_tables else d v))
              (sym (text_eq_sound u t same)) (own d1 (rw (same, text_eq_sound u t same) at e))
        | inr other ↦ unfold mem_text in ground (arith, e, other)
      ]

mem-reverse : (x : Text) (l : List Text) → mem_text x (reverse l) ≡ mem_text x l
unfolding mem_text
mem-reverse x [] = refl
mem-reverse x (y ∷ l) =
    ap (mem_text x) (reverse-cons y l)
    ∙ (mem-append x (reverse l) (y ∷ []) ∙ ground (arith, mem-reverse x l))

restored-lem :
    (l : List Text) (d e : Tables) (t : Text)
    → (if mem_text t l
        then clear_tables (reverse l) e t ++ get_rows t (dump_tables l d)
        else clear_tables (reverse l) e t)
      ≡ (if mem_text t l then d t else e t)
restored-lem l d e t = elim (Bool-cases (mem_text t l)) [
  | inl here ↦
      rw (here, clear-lem (reverse l) e t, mem-reverse t l, here, get-dump l d t, here) refl
  | inr absent ↦ rw (absent, clear-lem (reverse l) e t, mem-reverse t l, absent) refl
]

tables_distinct : distinct tables_in_dependency_order ≡ true
unfolding mem_text text_eq
tables_distinct = refl

module _ (accepts : Text → Row → Bool) where
  -- A dump restored over any database brings back the rows of every listed table, and leaves every
  -- other table as it is there, if the listed tables take the rows of the dump.
  pub restore_from_dict-create_backup_dict :
      (d e : Tables)
      → IsTaken accepts (create_backup_dict d) tables_in_dependency_order
      → (d' : Tables) × (restore_from_dict accepts (create_backup_dict d) e ≡ (true, d'))
        × ((t : Text) → d' t ≡ (if mem_text t tables_in_dependency_order then d t else e t))
  restore_from_dict-create_backup_dict d e taken =
      let cleared = clear_tables (reverse tables_in_dependency_order) e in
      let (d', run, at) =
        fill-lem accepts tables_in_dependency_order (create_backup_dict d) cleared tables_distinct
          taken in
      (d', unfold restore_from_dict commit_or_keep in rw run, λ t. at t ∙ restored t)
    where
      restored :
          (t : Text)
          → (if mem_text t tables_in_dependency_order
              then clear_tables (reverse tables_in_dependency_order) e t
                ++ get_rows t (create_backup_dict d)
              else clear_tables (reverse tables_in_dependency_order) e t)
            ≡ (if mem_text t tables_in_dependency_order then d t else e t)
      restored t = unfold create_backup_dict in restored-lem tables_in_dependency_order d e t
