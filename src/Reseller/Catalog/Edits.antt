-- ===== src/Reseller/Catalog/Edits.antt =====
-- handlers/reseller/catalog.py: the edits of an operator, a folder and a product.
use baste.Prelude.{ℕ, Option, none, some, List, if◌then◌else◌}
use baste.Text.{Text}
use baste.Text.Lines.{strip}
use baste.Exec.{fetch}
use baste.SanityCheck.{is_price_suspicious}
use baste.Keyboards.Catalog.{catalog_submenu, package_edit_price_confirm_buttons}
use baste.Chat.{
  World, Message, H, ◌>>=◌, ◌>>◌, done, call, clear, get_data, set_state, update_data, present,
  in_panel, in_manage, ManageState, PendingEdit,
}
use baste.Chat.Decimals.{Amount}
use baste.Chat.CatalogReplies.{
  ask_new_operator_name, ask_new_title, ask_new_price, ask_new_cost, ask_new_product_name,
  operator_renamed, subcategory_renamed, product_renamed, price_changed, cost_changed,
  invalid_price, not_a_number, suspicious_price, request_expired, ask_price_again, status_changed,
}
use baste.Reseller.OrderReview.{acknowledge}
use baste.Reseller.ChargeStock.{part, int_part}
use baste.Reseller.Catalog.Rows.{
  rename_operator, rename_subcategory, rename_package, set_sale_price, set_cost_price,
  toggle_active, operator_of,
}
use baste.Reseller.Catalog.{tell, entry, is_package}
use baste.Reseller.Catalog.Products.{price_in, put_pending, pending_of, without_pending}
use baste.Reseller.Catalog.Manage.{render_package_detail}

unfoldable pub start_edit_operator_name : ℕ → List Text → H Unit
unfolding tell part int_part acknowledge
start_edit_operator_name user parts = do
  catalog_type ← part 2 parts
  operator_id ← int_part 3 parts
  update_data (λ d. record d { catalog_type = some catalog_type; operator_id = some operator_id })
  set_state (in_panel (in_manage ManageState.editing_operator_name))
  tell user ask_new_operator_name none
  acknowledge user

unfoldable pub save_operator_name_edit : Message → H Unit
unfolding tell strip entry rename_operator
save_operator_name_edit message = do
  data_ ← get_data
  text ← present message.text
  let new_name = strip text
  operator_id ← entry data_.operator_id
  call (rename_operator operator_id new_name)
  catalog_type ← entry data_.catalog_type
  tell message.user (operator_renamed new_name) (some (catalog_submenu catalog_type))
  clear

unfoldable pub start_edit_subcategory_title : ℕ → List Text → H Unit
unfolding tell part int_part acknowledge
start_edit_subcategory_title user parts = do
  catalog_type ← part 2 parts
  subcategory_id ← int_part 3 parts
  update_data
      (λ d. record d { catalog_type = some catalog_type; subcategory_id = some subcategory_id })
  set_state (in_panel (in_manage ManageState.editing_subcategory_title))
  tell user ask_new_title none
  acknowledge user

unfoldable pub save_subcategory_title_edit : Message → H Unit
unfolding tell strip entry rename_subcategory
save_subcategory_title_edit message = do
  data_ ← get_data
  text ← present message.text
  let new_name = strip text
  subcategory_id ← entry data_.subcategory_id
  call (rename_subcategory subcategory_id new_name)
  catalog_type ← entry data_.catalog_type
  tell message.user (subcategory_renamed new_name) (some (catalog_submenu catalog_type))
  clear

unfoldable pub start_edit_package_name : ℕ → List Text → H Unit
unfolding tell part int_part is_package acknowledge
start_edit_package_name user parts = do
  catalog_type ← part 2 parts
  package_id ← int_part 3 parts
  update_data (λ d. record d { catalog_type = some catalog_type; package_id = some package_id })
  set_state (in_panel (in_manage ManageState.editing_package_name))
  tell user (ask_new_product_name (is_package catalog_type)) none
  acknowledge user

unfoldable pub save_package_name_edit : Message → H Unit
unfolding tell strip entry rename_package
save_package_name_edit message = do
  data_ ← get_data
  text ← present message.text
  let new_name = strip text
  package_id ← entry data_.package_id
  call (rename_package package_id new_name)
  catalog_type ← entry data_.catalog_type
  tell message.user (product_renamed new_name) (some (catalog_submenu catalog_type))
  clear

unfoldable pub start_edit_package_price : ℕ → List Text → H Unit
unfolding tell part int_part acknowledge
start_edit_package_price user parts = do
  catalog_type ← part 2 parts
  package_id ← int_part 3 parts
  update_data (λ d. record d { catalog_type = some catalog_type; package_id = some package_id })
  set_state (in_panel (in_manage ManageState.editing_package_price))
  tell user ask_new_price none
  acknowledge user

unfoldable pub keep_edit : Text → PendingEdit → H Unit
unfolding put_pending
keep_edit token edit s =
    done tt (record s { pending_edits = put_pending token edit s.pending_edits })

unfoldable pub pop_edit : Text → H (Option PendingEdit)
unfolding pending_of without_pending
pop_edit token s =
    done (pending_of token s.pending_edits)
      (record s { pending_edits = without_pending token s.pending_edits })

unfoldable pub question_edit : World → Message → ℕ → Option Text → Amount → H Unit
unfolding tell entry keep_edit
question_edit w message package_id type_entry sale_price = do
  catalog_type ← entry type_entry
  keep_edit w.token
      (record { package_id = package_id; catalog_type = catalog_type; sale_price = sale_price })
  set_state (in_panel (in_manage ManageState.confirming_suspicious_edit_price))
  tell message.user (suspicious_price sale_price)
      (some (package_edit_price_confirm_buttons w.token))

unfoldable pub change_price : Message → ℕ → Option Text → Amount → H Unit
unfolding tell entry set_sale_price
change_price message package_id type_entry sale_price = do
  call (set_sale_price package_id sale_price.stored)
  catalog_type ← entry type_entry
  tell message.user (price_changed sale_price) (some (catalog_submenu catalog_type))
  clear

unfoldable pub take_price_edit : World → Message → Option Amount → H Unit
unfolding tell entry operator_of is_price_suspicious question_edit change_price
take_price_edit w message none = tell message.user invalid_price none
take_price_edit w message (some sale_price) = do
  data_ ← get_data
  package_id ← entry data_.package_id
  operator_name ← call (fetch (operator_of package_id))
  suspicious ← call (is_price_suspicious operator_name sale_price)
  if suspicious
      then question_edit w message package_id data_.catalog_type sale_price
      else change_price message package_id data_.catalog_type sale_price

unfoldable pub receive_package_price_edit : World → Message → H Unit
unfolding price_in take_price_edit
receive_package_price_edit w message = do
  text ← present message.text
  take_price_edit w message (price_in w text)

unfoldable pub apply_edit : ℕ → Option PendingEdit → H Unit
unfolding tell set_sale_price acknowledge
apply_edit user none = tell user request_expired none
apply_edit user (some pending) = do
  call (set_sale_price pending.package_id pending.sale_price.stored)
  tell user (price_changed pending.sale_price) (some (catalog_submenu pending.catalog_type))
  clear
  acknowledge user

unfoldable pub confirm_edit_suspicious_price : ℕ → List Text → H Unit
unfolding part pop_edit apply_edit
confirm_edit_suspicious_price user parts = do
  token ← part 1 parts
  pending ← pop_edit token
  apply_edit user pending

unfoldable pub edit_again_suspicious_price : ℕ → List Text → H Unit
unfolding tell part pop_edit acknowledge
edit_again_suspicious_price user parts = do
  token ← part 1 parts
  pop_edit token
  set_state (in_panel (in_manage ManageState.editing_package_price))
  tell user ask_price_again none
  acknowledge user

unfoldable pub start_edit_package_cost : ℕ → List Text → H Unit
unfolding tell part int_part acknowledge
start_edit_package_cost user parts = do
  catalog_type ← part 2 parts
  package_id ← int_part 3 parts
  update_data (λ d. record d { catalog_type = some catalog_type; package_id = some package_id })
  set_state (in_panel (in_manage ManageState.editing_package_cost_price))
  tell user ask_new_cost none
  acknowledge user

unfoldable pub save_cost : Message → Option Amount → H Unit
unfolding tell entry set_cost_price
save_cost message none = tell message.user not_a_number none
save_cost message (some cost_price) = do
  data_ ← get_data
  package_id ← entry data_.package_id
  call (set_cost_price package_id cost_price.stored)
  catalog_type ← entry data_.catalog_type
  tell message.user (cost_changed cost_price) (some (catalog_submenu catalog_type))
  clear

unfoldable pub save_package_cost_edit : World → Message → H Unit
unfolding price_in save_cost
save_package_cost_edit w message = do
  text ← present message.text
  save_cost message (price_in w text)

unfoldable pub toggle_package_active : ℕ → List Text → H Unit
unfolding tell part int_part toggle_active render_package_detail
toggle_package_active user parts = do
  catalog_type ← part 2 parts
  package_id ← int_part 3 parts
  call (toggle_active package_id)
  tell user status_changed none
  render_package_detail user catalog_type package_id
