-- ===== src/Reseller/Catalog/Linked/Statements.antt =====
-- handlers/reseller/catalog.py: every statement keeps the references, deletions included.
use baste.Prelude.{
  [], ◌∷◌, ℕ, ◌≡◌, Bool, true, false, none, List, arith, All, All-map, if◌then◌else◌, inl, inr,
  Bool-cases, Option-cases,
}
use baste.Table.{delete_where, update_where}
use baste.Table.Keys.{delete_where-IsKeyed}
use baste.Table.Deletes.{select_one-none}
use baste.Schema.{Db, Category, Package}
use baste.Exec.Keeps.{Keeps, keeps_rules}
use baste.Reseller.Catalog.Deletion.{
  doomed, ordered, drop_packages, delete_packages, parent_in, drop_categories, delete_categories,
  delete_folders, delete_operator_tree, delete_subcategory_tree, delete_package,
}
use baste.Reseller.Catalog.Linked.{
  Linked, has, has_parent, All-both, All-keep, All-change, update_where-IsKeyed, has-delete_where,
  has-update_where,
}

module _ (p : ℕ → Package → Bool) (s : Db) (linked : Linked s) where
  -- A package that is referred to and not doomed stays.
  stays :
      (i : ℕ)
      → has s.packages i ≡ true
      → doomed p s i ≡ false
      → has (delete_where p s.packages) i ≡ true
  unfolding doomed
  stays i there spared_by =
      has-delete_where p s.packages i linked.keyed_packages there
        (λ a found. ground (arith, spared_by, found))

  pub dropped-Linked : ordered p s ≡ false → Linked (drop_packages p s)
  unfolding drop_packages delete_where ordered
  dropped-Linked free = record {
    keyed_categories = linked.keyed_categories;
    keyed_packages = delete_where-IsKeyed p s.packages linked.keyed_packages;
    orders_linked =
        All-map _ _ (λ r h. stays r.1.package_id h.0 h.1) _
          (All-both _ _ s.orders.rows linked.orders_linked (select_one-none _ s.orders free));
    codes_linked =
        All-map _ _ (λ r h. stays r.1.package_id h.0 (ground (arith, h.1))) _
          (All-keep _ _ s.charge_codes.rows linked.codes_linked);
    packages_linked =
        All-map _ _ (λ r h. h.0) _ (All-keep _ _ s.packages.rows linked.packages_linked);
    parents_linked = linked.parents_linked;
  }

-- The packages of the deleted categories go with them.
module _ (p : ℕ → Bool) (s : Db) (linked : Linked s) where
  remains :
      (i : ℕ)
      → has s.categories i ≡ true
      → p i ≡ false
      → has (drop_categories p s).categories i ≡ true
  unfolding drop_categories
  remains i there spared_by = rw (has-update_where _ _ _ i) (
      has-delete_where (λ k _. p k) s.categories i linked.keyed_categories there
        (λ a found. spared_by))

  orphaned :
      (r : ℕ × Category)
      → has_parent s.categories r.1.parent_category_id ≡ true
      → has_parent
          (drop_categories p s).categories
          (if parent_in p r.1
            then record r.1 { parent_category_id = none }
            else r.1).parent_category_id
        ≡ true
  unfolding parent_in
  orphaned r h = elim (Option-cases r.1.parent_category_id) [
    | inl top ↦ ground (arith, top)
    | inr (k, below) ↦ elim (Bool-cases (p k)) [
      | inl gone ↦ ground (arith, below, gone)
      | inr left ↦ ground (arith, below, left, remains k (ground (arith, h, below)) left)
    ]
  ]

  pub uncategorized-Linked :
      All (λ r. p r.1.category_id ≡ false) s.packages.rows → Linked (drop_categories p s)
  unfolding drop_categories delete_where update_where
  uncategorized-Linked empty = record {
    keyed_categories =
        update_where-IsKeyed (λ _ c. parent_in p c) (λ c. record c { parent_category_id = none }) _
          (delete_where-IsKeyed (λ k _. p k) s.categories linked.keyed_categories);
    keyed_packages = linked.keyed_packages;
    orders_linked = linked.orders_linked;
    codes_linked = linked.codes_linked;
    packages_linked =
        All-map _ _ (λ r h. remains r.1.category_id h.0 h.1) _
          (All-both _ _ s.packages.rows linked.packages_linked empty);
    parents_linked =
        All-change _ _ _ (λ r h. orphaned r h.0) _
          (All-keep _ _ s.categories.rows linked.parents_linked);
  }

-- The packages that stay are in categories that stay.
emptied :
    (p : ℕ → Bool) (s : Db)
    → All (λ r. p r.1.category_id ≡ false) (drop_packages (λ _ q. p q.category_id) s).packages.rows
unfolding drop_packages delete_where
emptied p s =
    All-map _ _ (λ r h. ground (arith, h.1)) _
      (All-keep (λ _. Unit) _ s.packages.rows (anything s.packages.rows))
  where
    anything : (l : List (ℕ × Package)) → All (λ _. Unit {0}) l
    anything [] = tt
    anything (x ∷ l) = (tt, anything l)

pub delete_packages-Linked : (p : ℕ → Package → Bool) → Keeps Linked (delete_packages p)
unfolding delete_packages
delete_packages-Linked p = record {
  at = λ s h. elim (Bool-cases (ordered p s)) [
    | inl held ↦ rw held h
    | inr free ↦ rw free (dropped-Linked p s h free)
  ];
}

pub delete_categories-Linked : (p : ℕ → Bool) → Keeps Linked (delete_categories p)
unfolding delete_categories
delete_categories-Linked p = record {
  at = λ s h. elim (Bool-cases (ordered (λ _ q. p q.category_id) s)) [
    | inl held ↦ rw held h
    | inr free ↦
        rw free (
          uncategorized-Linked p _ (dropped-Linked (λ _ q. p q.category_id) s h free) (emptied p s))
  ];
}

pub delete_folders-Linked : (l : List ℕ) → Keeps Linked (delete_folders l)
unfolding delete_folders
delete_folders-Linked [] = search keeps_rules
delete_folders-Linked (i ∷ rest) =
    search (keeps_rules, delete_packages-Linked, delete_categories-Linked)

pub delete_operator_tree-Linked : (i : ℕ) → Keeps Linked (delete_operator_tree i)
unfolding delete_operator_tree
delete_operator_tree-Linked i =
    search (keeps_rules, delete_folders-Linked, delete_categories-Linked) depth 20

pub delete_subcategory_tree-Linked : (i : ℕ) → Keeps Linked (delete_subcategory_tree i)
unfolding delete_subcategory_tree
delete_subcategory_tree-Linked i =
    search (keeps_rules, delete_packages-Linked, delete_categories-Linked) depth 20

pub delete_package-Linked : (i : ℕ) → Keeps Linked (delete_package i)
unfolding delete_package
delete_package-Linked i = search (keeps_rules, delete_packages-Linked) depth 20
