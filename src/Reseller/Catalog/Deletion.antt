-- ===== src/Reseller/Catalog/Deletion.antt =====
-- handlers/reseller/catalog.py: what a deletion would take along, and the deletions themselves. The
-- foreign keys are those of database/schema.sql: a row of `orders` holds its package back, the packages
-- go with their category and the charge codes with their package, and a category whose parent goes
-- has none afterwards.
use baste.Prelude.{is_in, ℕ, Bool, false, ◌&&◌, none, some, List, [], ◌∷◌, ◌==◌, is_some, length}
use baste.Table.{find, select, select_one, count_where, delete_where, update_where}
use baste.Table.Deletes.{ids}
use baste.Schema.{Db, Category, Package}
use baste.Exec.{M, pure, fetch, execute, raise_if, transaction, integrity_error, ◌>>=◌, ◌>>◌}
use baste.Charge.{is_available, count_available_codes}
use baste.Customer.{subcategories_of}
use baste.Reseller.ChargeStock.{packages_in}

unfoldable pub packages_in_any : List ℕ → Db → List (ℕ × Package)
unfolding is_in
packages_in_any folders s = select (λ _ p. is_in folders p.category_id) s.packages

-- The codes in stock of several products.
unfoldable pub codes_of : List ℕ → Db → ℕ
unfolding is_in
codes_of products s =
    count_where (λ _ c. is_available c.status && is_in products c.package_id) s.charge_codes

unfoldable pub count_codes : List ℕ → M ℕ
unfolding codes_of
count_codes [] = pure 0
count_codes (i ∷ rest) = fetch (codes_of (i ∷ rest))

unfoldable pub count_subcategory_deletion_impact : ℕ → M (ℕ × ℕ)
unfolding packages_in count_codes
count_subcategory_deletion_impact subcategory_id = do
  products ← fetch (packages_in subcategory_id)
  codes_count ← count_codes (ids products)
  pure (length (ids products), codes_count)

unfoldable pub count_in_folders : List ℕ → M (ℕ × ℕ)
unfolding packages_in_any count_codes
count_in_folders [] = pure (0, 0)
count_in_folders (i ∷ rest) = do
  products ← fetch (packages_in_any (i ∷ rest))
  codes_count ← count_codes (ids products)
  pure (length products, codes_count)

unfoldable pub count_operator_deletion_impact : ℕ → M (ℕ × (ℕ × ℕ))
unfolding subcategories_of count_in_folders
count_operator_deletion_impact operator_id = do
  subs ← fetch (subcategories_of operator_id)
  counts ← count_in_folders (ids subs)
  pure (length (ids subs), counts)

unfoldable pub count_package_deletion_impact : ℕ → M ℕ
unfolding count_available_codes
count_package_deletion_impact package_id = count_available_codes package_id

-- Whether a package that the DELETE is about has this id.
unfoldable pub doomed : (ℕ → Package → Bool) → Db → ℕ → Bool
doomed p s package_id = elim (find s.packages package_id) [ none ↦ false | some q ↦ p package_id q ]

-- Whether a row of `orders` holds one of the packages back.
unfoldable pub ordered : (ℕ → Package → Bool) → Db → Bool
unfolding doomed
ordered p s = is_some (select_one (λ _ o. doomed p s o.package_id) s.orders)

unfoldable pub drop_packages : (ℕ → Package → Bool) → Db → Db
unfolding doomed
drop_packages p s = record s {
  packages = delete_where p s.packages;
  charge_codes = delete_where (λ _ c. doomed p s c.package_id) s.charge_codes;
}

-- DELETE FROM packages WHERE p
unfoldable pub delete_packages : (ℕ → Package → Bool) → M Unit
unfolding ordered drop_packages
delete_packages p = do
  held ← fetch (ordered p)
  raise_if held integrity_error
  execute (drop_packages p)

unfoldable pub parent_in : (ℕ → Bool) → Category → Bool
parent_in p c = elim c.parent_category_id [ none ↦ false | some k ↦ p k ]

unfoldable pub drop_categories : (ℕ → Bool) → Db → Db
unfolding parent_in
drop_categories p s = record s {
  categories =
      update_where (λ _ c. parent_in p c) (λ c. record c { parent_category_id = none })
        (delete_where (λ k _. p k) s.categories);
}

-- DELETE FROM categories WHERE p
unfoldable pub delete_categories : (ℕ → Bool) → M Unit
unfolding ordered drop_packages drop_categories
delete_categories p = do
  held ← fetch (ordered (λ _ q. p q.category_id))
  raise_if held integrity_error
  execute (λ s. drop_categories p (drop_packages (λ _ q. p q.category_id) s))

unfoldable pub delete_folders : List ℕ → M Unit
unfolding delete_packages delete_categories is_in
delete_folders [] = pure tt
delete_folders (i ∷ rest) = do
  delete_packages (λ _ p. is_in (i ∷ rest) p.category_id)
  delete_categories (is_in (i ∷ rest))

unfoldable pub delete_operator_tree : ℕ → M Unit
unfolding subcategories_of delete_folders delete_categories
delete_operator_tree operator_id = transaction (do
  subs ← fetch (subcategories_of operator_id)
  delete_folders (ids subs)
  delete_categories (λ k. k == operator_id))

unfoldable pub delete_subcategory_tree : ℕ → M Unit
unfolding delete_packages delete_categories
delete_subcategory_tree subcategory_id = transaction (do
  delete_packages (λ _ p. p.category_id == subcategory_id)
  delete_categories (λ k. k == subcategory_id))

unfoldable pub delete_package : ℕ → M Unit
unfolding delete_packages
delete_package package_id = transaction (delete_packages (λ k _. k == package_id))
