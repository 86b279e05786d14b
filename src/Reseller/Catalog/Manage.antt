-- ===== src/Reseller/Catalog/Manage.antt =====
-- handlers/reseller/catalog.py: the pages of an operator, a folder and a product in the management menu.
use baste.Prelude.{ℕ, Bool, true, false, Option, none, some, List, [], ◌∷◌}
use baste.Text.{Text, codes, text_eq}
use baste.Table.{find}
use baste.Schema.{Category, Package}
use baste.Exec.{fetch}
use baste.Keyboards.Catalog.{
  catalog_submenu, catalog_manage_operator_list_buttons, catalog_manage_operator_detail_buttons,
  catalog_manage_subcategory_detail_buttons, catalog_manage_package_detail_buttons,
}
use baste.Customer.{subcategories_of}
use baste.Chat.{H, ◌>>=◌, ◌>>◌, call}
use baste.Chat.CatalogReplies.{
  no_operators_yet, manage_catalog, operator_gone, subcategory_gone, product_gone, operator_detail,
  subcategory_detail, product_detail,
}
use baste.Reseller.OrderReview.{acknowledge}
use baste.Reseller.ChargeStock.{part, int_part, packages_in}
use baste.Reseller.Catalog.Rows.{operators_with}
use baste.Reseller.Catalog.{tell, is_package}

unfoldable pub is_empty_list {ℓ} : {A : Type ℓ} → List A → Bool
is_empty_list [] = true
is_empty_list (_ ∷ _) = false

unfoldable pub manage_page : ℕ → Text → List (ℕ × Category) → H Unit
unfolding tell
manage_page user catalog_type [] = tell user no_operators_yet (some (catalog_submenu catalog_type))
manage_page user catalog_type (op ∷ rest) =
    tell user (manage_catalog catalog_type)
      (some (catalog_manage_operator_list_buttons (op ∷ rest) catalog_type))

unfoldable pub render_manage_operators : ℕ → Text → ℕ → H Unit
unfolding operators_with manage_page
render_manage_operators user catalog_type reseller_id = do
  operators ← call (fetch (operators_with reseller_id catalog_type))
  manage_page user catalog_type operators

unfoldable pub operator_page : ℕ → Text → ℕ → Option Category → H Unit
unfolding tell subcategories_of is_empty_list
operator_page user catalog_type operator_id none =
    tell user operator_gone (some (catalog_submenu catalog_type))
operator_page user catalog_type operator_id (some operator) = do
  subcategories ← call (fetch (subcategories_of operator_id))
  tell user (operator_detail operator.operator_name (is_empty_list subcategories))
      (some (catalog_manage_operator_detail_buttons catalog_type operator_id subcategories))

unfoldable pub render_operator_detail : ℕ → Text → ℕ → H Unit
unfolding operator_page
render_operator_detail user catalog_type operator_id = do
  operator ← call (fetch (λ s. find s.categories operator_id))
  operator_page user catalog_type operator_id operator

unfoldable pub subcategory_page : ℕ → Text → ℕ → Option Category → H Unit
unfolding tell packages_in is_empty_list
subcategory_page user catalog_type subcategory_id none =
    tell user subcategory_gone (some (catalog_submenu catalog_type))
subcategory_page user catalog_type subcategory_id (some sub) = do
  products ← call (fetch (packages_in subcategory_id))
  tell user (subcategory_detail sub.title (is_empty_list products)) (
      some (
        catalog_manage_subcategory_detail_buttons catalog_type sub.parent_category_id subcategory_id
          products))

unfoldable pub render_subcategory_detail : ℕ → Text → ℕ → H Unit
unfolding subcategory_page
render_subcategory_detail user catalog_type subcategory_id = do
  sub ← call (fetch (λ s. find s.categories subcategory_id))
  subcategory_page user catalog_type subcategory_id sub

unfoldable pub package_page : ℕ → Text → ℕ → Option Package → H Unit
unfolding tell is_package
package_page user catalog_type package_id none =
    tell user product_gone (some (catalog_submenu catalog_type))
package_page user catalog_type package_id (some pkg) =
    tell user
      (product_detail (text_eq catalog_type (codes "charge")) pkg.name pkg.sale_price pkg.cost_price
        pkg.is_active)
      (some (
        catalog_manage_package_detail_buttons catalog_type pkg.category_id package_id
          pkg.is_active))

unfoldable pub render_package_detail : ℕ → Text → ℕ → H Unit
unfolding package_page
render_package_detail user catalog_type package_id = do
  pkg ← call (fetch (λ s. find s.packages package_id))
  package_page user catalog_type package_id pkg

unfoldable pub manage_operators_cb : ℕ → ℕ → List Text → H Unit
unfolding part render_manage_operators acknowledge
manage_operators_cb user reseller_id parts = do
  catalog_type ← part 2 parts
  render_manage_operators user catalog_type reseller_id
  acknowledge user

unfoldable pub manage_operator_detail_cb : ℕ → List Text → H Unit
unfolding part int_part render_operator_detail acknowledge
manage_operator_detail_cb user parts = do
  catalog_type ← part 2 parts
  operator_id ← int_part 3 parts
  render_operator_detail user catalog_type operator_id
  acknowledge user

unfoldable pub manage_subcategory_detail_cb : ℕ → List Text → H Unit
unfolding part int_part render_subcategory_detail acknowledge
manage_subcategory_detail_cb user parts = do
  catalog_type ← part 2 parts
  subcategory_id ← int_part 3 parts
  render_subcategory_detail user catalog_type subcategory_id
  acknowledge user

unfoldable pub manage_package_detail_cb : ℕ → List Text → H Unit
unfolding part int_part render_package_detail acknowledge
manage_package_detail_cb user parts = do
  catalog_type ← part 2 parts
  package_id ← int_part 3 parts
  render_package_detail user catalog_type package_id
  acknowledge user
