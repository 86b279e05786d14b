-- ===== src/Reseller/Catalog/Removal.antt =====
-- handlers/reseller/catalog.py: the deletion of an operator, a folder and a product: the question, the
-- answer and what is shown afterwards.
use baste.Prelude.{ℕ, Option, none, some, List, ◌==◌, if◌then◌else◌, map_option}
use baste.Text.{Text, codes, text_eq}
use baste.Table.{find}
use baste.Exec.{Result, ok, err, integrity_error, fetch}
use baste.Keyboards.Catalog.{catalog_submenu, catalog_delete_confirm_buttons}
use baste.Chat.{H, ◌>>=◌, ◌>>◌, fail, call, attempt}
use baste.Chat.CatalogReplies.{
  cancelled, folder_was_sold, product_was_sold, operator_deleted, subcategory_deleted,
  product_deleted, confirm_operator, confirm_subcategory, confirm_product,
}
use baste.Reseller.OrderReview.{acknowledge}
use baste.Reseller.ChargeStock.{part, int_part}
use baste.Reseller.Catalog.Deletion.{
  count_operator_deletion_impact, count_subcategory_deletion_impact, count_package_deletion_impact,
  delete_operator_tree, delete_subcategory_tree, delete_package,
}
use baste.Reseller.Catalog.{tell}
use baste.Reseller.Catalog.Manage.{
  render_manage_operators, render_operator_detail, render_subcategory_detail, render_package_detail,
}

unfoldable pub confirm_delete_operator : ℕ → List Text → H Unit
unfolding tell part int_part count_operator_deletion_impact acknowledge
confirm_delete_operator user parts = do
  catalog_type ← part 2 parts
  operator_id ← int_part 3 parts
  counts ← call (count_operator_deletion_impact operator_id)
  tell user (confirm_operator counts.0 counts.1.0 counts.1.1)
      (some (catalog_delete_confirm_buttons catalog_type (codes "op") operator_id))
  acknowledge user

-- `except aiomysql.IntegrityError`: any other exception goes on.
unfoldable pub after_deletion : Result Unit → H Unit → H Unit → H Unit
after_deletion (ok _) deleted refused = deleted
after_deletion (err integrity_error) deleted refused = refused
after_deletion (err e) deleted refused = fail e

unfoldable pub delete_operator_confirmed : ℕ → ℕ → List Text → H Unit
unfolding tell part int_part delete_operator_tree after_deletion render_operator_detail
    render_manage_operators
delete_operator_confirmed user reseller_id parts = do
  catalog_type ← part 2 parts
  operator_id ← int_part 3 parts
  result ← attempt (delete_operator_tree operator_id)
  after_deletion result
      (do tell user operator_deleted none; render_manage_operators user catalog_type reseller_id)
      (do tell user folder_was_sold none; render_operator_detail user catalog_type operator_id)

unfoldable pub delete_operator_cancelled : ℕ → List Text → H Unit
unfolding tell part int_part render_operator_detail
delete_operator_cancelled user parts = do
  catalog_type ← part 2 parts
  operator_id ← int_part 3 parts
  tell user cancelled none
  render_operator_detail user catalog_type operator_id

unfoldable pub confirm_delete_subcategory : ℕ → List Text → H Unit
unfolding tell part int_part count_subcategory_deletion_impact acknowledge
confirm_delete_subcategory user parts = do
  catalog_type ← part 2 parts
  subcategory_id ← int_part 3 parts
  counts ← call (count_subcategory_deletion_impact subcategory_id)
  tell user (confirm_subcategory counts.0 counts.1)
      (some (catalog_delete_confirm_buttons catalog_type (codes "sub") subcategory_id))
  acknowledge user

-- `if sub and sub["parent_category_id"]`: neither NULL nor 0.
unfoldable pub back_to_parent : ℕ → Text → Option (Option ℕ) → H Unit
unfolding tell render_operator_detail
back_to_parent user catalog_type none =
    tell user subcategory_deleted (some (catalog_submenu catalog_type))
back_to_parent user catalog_type (some none) =
    tell user subcategory_deleted (some (catalog_submenu catalog_type))
back_to_parent user catalog_type (some (some parent_id)) =
    if parent_id == 0
    then tell user subcategory_deleted (some (catalog_submenu catalog_type))
    else render_operator_detail user catalog_type parent_id

unfoldable pub delete_subcategory_confirmed : ℕ → List Text → H Unit
unfolding tell part int_part delete_subcategory_tree after_deletion back_to_parent
    render_subcategory_detail
delete_subcategory_confirmed user parts = do
  catalog_type ← part 2 parts
  subcategory_id ← int_part 3 parts
  sub ←
      call (fetch (λ s. map_option (λ c. c.parent_category_id) (find s.categories subcategory_id)))
  result ← attempt (delete_subcategory_tree subcategory_id)
  after_deletion result
      (do tell user subcategory_deleted none; back_to_parent user catalog_type sub)
      (do
        tell user folder_was_sold none
        render_subcategory_detail user catalog_type subcategory_id)

unfoldable pub delete_subcategory_cancelled : ℕ → List Text → H Unit
unfolding tell part int_part render_subcategory_detail
delete_subcategory_cancelled user parts = do
  catalog_type ← part 2 parts
  subcategory_id ← int_part 3 parts
  tell user cancelled none
  render_subcategory_detail user catalog_type subcategory_id

-- The codes are mentioned in the catalog of charges only.
unfoldable pub codes_shown : Text → ℕ → Option ℕ
codes_shown catalog_type codes_count =
    if text_eq catalog_type (codes "charge") then some codes_count else none

unfoldable pub confirm_delete_package : ℕ → List Text → H Unit
unfolding tell part int_part count_package_deletion_impact codes_shown acknowledge
confirm_delete_package user parts = do
  catalog_type ← part 2 parts
  package_id ← int_part 3 parts
  codes_count ← call (count_package_deletion_impact package_id)
  tell user (confirm_product (codes_shown catalog_type codes_count))
      (some (catalog_delete_confirm_buttons catalog_type (codes "pkg") package_id))
  acknowledge user

unfoldable pub back_to_folder : ℕ → Text → Option ℕ → H Unit
unfolding tell render_subcategory_detail
back_to_folder user catalog_type none =
    tell user product_deleted (some (catalog_submenu catalog_type))
back_to_folder user catalog_type (some category_id) =
    render_subcategory_detail user catalog_type category_id

unfoldable pub delete_package_confirmed : ℕ → List Text → H Unit
unfolding tell part int_part delete_package after_deletion back_to_folder render_package_detail
delete_package_confirmed user parts = do
  catalog_type ← part 2 parts
  package_id ← int_part 3 parts
  folder ← call (fetch (λ s. map_option (λ p. p.category_id) (find s.packages package_id)))
  result ← attempt (delete_package package_id)
  after_deletion result (do tell user product_deleted none; back_to_folder user catalog_type folder)
      (do tell user product_was_sold none; render_package_detail user catalog_type package_id)

unfoldable pub delete_package_cancelled : ℕ → List Text → H Unit
unfolding tell part int_part render_package_detail
delete_package_cancelled user parts = do
  catalog_type ← part 2 parts
  package_id ← int_part 3 parts
  tell user cancelled none
  render_package_detail user catalog_type package_id
