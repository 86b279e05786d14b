-- ===== src/Reseller/Catalog/Rows.antt =====
-- handlers/reseller/catalog.py: the SELECTs, INSERTs and UPDATEs of its handlers, on the tables.
use baste.Prelude.{ℕ, true, not, Option, none, some, List, [], if◌then◌else◌}
use baste.Prelude.Int.{ℤ}
use baste.Text.{Text, codes, text_eq}
use baste.Table.{find, insert, update}
use baste.Schema.{Db, Category, CatalogType, Package}
use baste.Exec.{M, pure, fetch, execute, or_raise, integrity_error, data_error, ◌>>=◌, ◌>>◌}
use baste.Customer.{operators_of, package_with_category}

-- What the ENUM column `catalog_type` takes.
unfoldable pub catalog_type_of : Text → Option CatalogType
unfolding text_eq
catalog_type_of t =
    if text_eq t (codes "package")
    then some CatalogType.package_catalog
    else if text_eq t (codes "charge")
    then some CatalogType.charge_catalog
    else none

-- The folders at the top of one catalog; a type that the column does not have is that of no row.
unfoldable pub operators_with : ℕ → Text → Db → List (ℕ × Category)
unfolding operators_of catalog_type_of
operators_with reseller_id catalog_type s = elim (catalog_type_of catalog_type) [
  | none ↦ []
  | some kind ↦ operators_of reseller_id kind s
]

unfoldable pub add_category : Category → Db → Db
add_category c s = record s { categories = insert s.categories c }

-- The foreign key of `parent_category_id`, which may be NULL.
unfoldable pub check_parent : Option ℕ → M Unit
check_parent none = pure tt
check_parent (some k) = do or_raise (← fetch (λ s. find s.categories k)) integrity_error; pure tt

unfoldable pub insert_category : ℕ → Text → Text → Option ℕ → Text → M Unit
unfolding catalog_type_of add_category check_parent
insert_category reseller_id operator_name title parent catalog_type = do
  kind ← or_raise (catalog_type_of catalog_type) data_error
  or_raise (← fetch (λ s. find s.resellers reseller_id)) integrity_error
  check_parent parent
  execute (
      add_category (record {
        reseller_id = reseller_id;
        operator_name = operator_name;
        parent_category_id = parent;
        title = title;
        catalog_type = kind;
      }))

unfoldable pub add_package : Package → Db → Db
add_package p s = record s { packages = insert s.packages p }

-- The prices are `none` where the column does not take them.
unfoldable pub insert_package : ℕ → ℕ → Text → Option ℤ → Option ℤ → M Unit
unfolding add_package
insert_package reseller_id category_id name sale_price cost_price = do
  price ← or_raise sale_price data_error
  cost ← or_raise cost_price data_error
  or_raise (← fetch (λ s. find s.resellers reseller_id)) integrity_error
  or_raise (← fetch (λ s. find s.categories category_id)) integrity_error
  execute (
      add_package (record {
        reseller_id = reseller_id;
        category_id = category_id;
        name = name;
        sale_price = price;
        cost_price = some cost;
        is_active = true;
      }))

unfoldable pub update_category : ℕ → (Category → Category) → Db → Db
update_category k f s = record s { categories = update s.categories k f }

unfoldable pub update_package : ℕ → (Package → Package) → Db → Db
update_package k f s = record s { packages = update s.packages k f }

unfoldable pub rename_operator : ℕ → Text → M Unit
unfolding update_category
rename_operator operator_id name =
    execute (update_category operator_id (λ c. record c { operator_name = name; title = name }))

unfoldable pub rename_subcategory : ℕ → Text → M Unit
unfolding update_category
rename_subcategory subcategory_id title =
    execute (update_category subcategory_id (λ c. record c { title = title }))

unfoldable pub rename_package : ℕ → Text → M Unit
unfolding update_package
rename_package package_id name = execute (update_package package_id (λ p. record p { name = name }))

unfoldable pub set_sale_price : ℕ → Option ℤ → M Unit
unfolding update_package
set_sale_price package_id sale_price = do
  price ← or_raise sale_price data_error
  execute (update_package package_id (λ p. record p { sale_price = price }))

unfoldable pub set_cost_price : ℕ → Option ℤ → M Unit
unfolding update_package
set_cost_price package_id cost_price = do
  cost ← or_raise cost_price data_error
  execute (update_package package_id (λ p. record p { cost_price = some cost }))

unfoldable pub toggle_active : ℕ → M Unit
unfolding update_package
toggle_active package_id =
    execute (update_package package_id (λ p. record p { is_active = not p.is_active }))

-- The operator's name of a package, over the join with its category.
unfoldable pub operator_of : ℕ → Db → Text
unfolding package_with_category
operator_of package_id s = elim (package_with_category package_id s) [
  | none ↦ []
  | some (p, c) ↦ c.operator_name
]
