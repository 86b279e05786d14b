-- ===== src/Reseller/Catalog/Trees.antt =====
-- handlers/reseller/catalog.py: what the deletion of an operator takes along, and when it is refused.
pub mod Folders
mod Deletion
pub mod Outcome
use baste.Prelude.{
  is_in, ℕ, suc, ◌<◌, ◌≤◌, ◌≡◌, ◌⊎◌, inl, inr, refl, sym, Bool, true, false, ◌&&◌, ◌||◌, Option,
  none, some, List, [], ◌∷◌, arith, ◌==◌, is_some, All, All-map, keep, map, map_option,
  if◌then◌else◌, Bool-cases, Option-cases,
}
use baste.Table.{Table, find_row, find, select, first_row, select_one}
use baste.Table.Keys.{Keyed, IsKeyed, find-below}
use baste.Table.Deletes.{
  ids, spared, find-delete_where, find-update_where, select_one-none, is_in-select,
}
use baste.Schema.{Db, Category, Package, Order}
use baste.Exec.{ok, err, integrity_error}
use baste.Customer.{lies_in, subcategories_of}
use baste.Reseller.Catalog.Deletion.{
  doomed, ordered, drop_packages, delete_packages, parent_in, drop_categories, delete_categories,
  delete_folders, delete_operator_tree,
}
use baste.Reseller.Catalog.Linked.{Linked, has}

module _ {A : Type 0} where
  -- Whether a query finds a row depends on its test at the rows only.
  pub select_one-cong :
      (p q : ℕ → A → Bool) (t : Table A)
      → All (λ r. p r.0 r.1 ≡ q r.0 r.1) t.rows
      → is_some (select_one p t) ≡ is_some (select_one q t)
  unfolding select_one
  select_one-cong p q t h = go t.rows h
    where
      go :
          (l : List (ℕ × A))
          → All (λ r. p r.0 r.1 ≡ q r.0 r.1) l
          → is_some (first_row p l) ≡ is_some (first_row q l)
      go [] e = refl
      go ((j, a) ∷ l) e = ground (arith, e.0, go l e.1)

  pub select_one-or :
      (p q : ℕ → A → Bool) (t : Table A)
      → is_some (select_one (λ k a. p k a || q k a) t)
        ≡ is_some (select_one p t) || is_some (select_one q t)
  unfolding select_one
  select_one-or p q t = go t.rows
    where
      go :
          (l : List (ℕ × A))
          → is_some (first_row (λ k a. p k a || q k a) l)
            ≡ is_some (first_row p l) || is_some (first_row q l)
      go [] = refl
      go ((j, a) ∷ l) = ground (arith, go l)

  pub select_one-false :
      (p : ℕ → A → Bool) (t : Table A)
      → ((k : ℕ) (a : A) → p k a ≡ false)
      → is_some (select_one p t) ≡ false
  unfolding select_one
  select_one-false p t h = go t.rows
    where
      go : (l : List (ℕ × A)) → is_some (first_row p l) ≡ false
      go [] = refl
      go ((j, a) ∷ l) = ground (arith, h j a, go l)

-- Whether a package lies in an operator or in one of its folders.
unfoldable pub under : ℕ → Db → ℕ → Bool
unfolding lies_in
under operator_id s category_id =
    category_id == operator_id || (elim (find s.categories category_id) [
      | none ↦ false
      | some c ↦ lies_in operator_id c.parent_category_id
    ])

-- Whether a package of the operator, in it or in one of its folders, was ordered.
unfoldable pub sold_under : ℕ → Db → Bool
unfolding under
sold_under operator_id s = is_some (
    select_one
      (λ _ o. (elim (find s.packages o.package_id) [
        | none ↦ false
        | some q ↦ under operator_id s q.category_id
      ]))
      s.orders)

-- A folder in a folder is in no third one.
abbrev pub IsShallow : Db → Type 0
IsShallow s =
    (k q : ℕ) (c : Category)
    → find s.categories k ≡ some c
    → c.parent_category_id ≡ some q
    → (d : Category) → find s.categories q ≡ some d
    → d.parent_category_id ≡ none

module _ (p : ℕ → Package → Bool) (s : Db) (keyed : IsKeyed s.packages) where
  pub find-drop_packages :
      (k : ℕ) → find (drop_packages p s).packages k ≡ spared p k (find s.packages k)
  unfolding drop_packages
  find-drop_packages k = find-delete_where p s.packages k keyed

  -- What one deletion leaves, another one sees.
  pub doomed-drop_packages :
      (q : ℕ → Package → Bool) (k : ℕ)
      → doomed p s k ≡ false
      → doomed q (drop_packages p s) k ≡ doomed q s k
  unfolding doomed
  doomed-drop_packages q k free = elim (Option-cases (find s.packages k)) [
    | inl missing ↦ ground (arith, find-drop_packages k, missing)
    | inr (a, found) ↦ ground (arith, find-drop_packages k, found, free)
  ]

  pub ordered-drop_packages :
      (q : ℕ → Package → Bool) → ordered p s ≡ false → ordered q (drop_packages p s) ≡ ordered q s
  unfolding ordered
  ordered-drop_packages q free =
      unfold drop_packages in
      select_one-cong _ _ s.orders (
        All-map _ _ (λ r h. doomed-drop_packages q r.1.package_id h) _
          (select_one-none _ s.orders free))

  pub ordered-dropped :
      (q : ℕ → Package → Bool)
      → ((k : ℕ) (a : Package) → p k a ≡ false → q k a ≡ false)
      → ordered q (drop_packages p s) ≡ false
  unfolding ordered doomed
  ordered-dropped q within =
      unfold drop_packages in select_one-false _ s.orders (λ j o. gone o.package_id)
    where
      gone : (k : ℕ) → doomed q (drop_packages p s) k ≡ false
      gone k = elim (Option-cases (find s.packages k)) [
        | inl missing ↦ ground (arith, find-drop_packages k, missing)
        | inr (a, found) ↦ elim (Bool-cases (p k a)) [
          | inl hit ↦ ground (arith, find-drop_packages k, found, hit)
          | inr miss ↦ ground (arith, find-drop_packages k, found, miss, within k a miss)
        ]
      ]
