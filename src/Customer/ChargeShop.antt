-- ===== src/Customer/ChargeShop.antt =====
-- handlers/customer/charge.py: the catalog of charges, down to the quantity.
pub mod Quantity
use baste.Prelude.{ℕ, Bool, true, false, Option, none, some, List, [], ◌∷◌, if◌then◌else◌}
use baste.Text.{Text, codes}
use baste.Schema.{Db, CatalogType, Category, Package}
use baste.Exec.{fetch}
use baste.ForcedJoin.{user_has_joined_all}
use baste.Keyboards.Customer.{
  customer_charge_detail_keyboard, customer_charge_quantity_keyboard,
  customer_back_to_menu_button_text, customer_back_button_text,
}
use baste.Chat.{
  World, Message, text_is, H, ◌>>=◌, ◌>>◌, done, call, answer, get_data, set_state, update_data,
  ChatData, in_charge, ChargeState, Labels, labels_of, picked,
}
use baste.Chat.Replies.{
  Reply, join_channels_for_charge, no_charges_for_sale, choose_operator, choose_from_keyboard,
  no_subcategories, choose_subcategory, no_charges, choose_charge, charge_gone, charge_detail,
  ask_quantity,
}
use baste.Customer.{
  back_to_main_menu, operators_of, subcategories_of, products_of, package_with_category,
  folder_labels, product_labels,
}
use baste.Customer.Browse.{folder_keyboard}

unfoldable pub list_charge_operators : Message → List (ℕ × Category) → H Unit
unfolding folder_labels folder_keyboard
list_charge_operators message [] = answer message no_charges_for_sale none
list_charge_operators message (op ∷ rest) = do
  let operator_map = folder_labels (codes "📁") (λ c. c.operator_name) (op ∷ rest)
  set_state (in_charge ChargeState.browsing_operators)
  update_data (λ d. record d { charge_operator_map = some operator_map })
  answer message choose_operator (folder_keyboard operator_map customer_back_to_menu_button_text)

unfoldable pub show_charge_operators : World → Message → ℕ → H Unit
unfolding list_charge_operators operators_of
show_charge_operators w message reseller_id = do
  joined ← call (user_has_joined_all w.get_chat_member reseller_id)
  if joined.0
      then (do
        operators ← call (fetch (operators_of reseller_id CatalogType.charge_catalog))
        list_charge_operators message operators)
      else answer message (join_channels_for_charge joined.1) none

unfoldable pub list_charge_subcategories : Message → List (ℕ × Category) → H Unit
unfolding folder_labels folder_keyboard
list_charge_subcategories message [] = answer message no_subcategories none
list_charge_subcategories message (c ∷ rest) = do
  let subcategory_map = folder_labels (codes "📂") (λ c. c.title) (c ∷ rest)
  set_state (in_charge ChargeState.browsing_subcategories)
  update_data (λ d. record d { charge_subcategory_map = some subcategory_map })
  answer message choose_subcategory (folder_keyboard subcategory_map customer_back_button_text)

unfoldable pub open_charge_operator : Message → Option ℕ → H Unit
unfolding list_charge_subcategories subcategories_of
open_charge_operator message none = answer message choose_from_keyboard none
open_charge_operator message (some operator_id) = do
  subcategories ← call (fetch (subcategories_of operator_id))
  list_charge_subcategories message subcategories

unfoldable pub handle_charge_operator_pick : Message → ℕ → H Unit
unfolding text_is picked open_charge_operator back_to_main_menu
handle_charge_operator_pick message reseller_id =
    if text_is customer_back_to_menu_button_text message
    then back_to_main_menu message reseller_id
    else do
      data_ ← get_data
      open_charge_operator message (picked message.text data_.charge_operator_map)

unfoldable pub list_charges : World → Message → List (ℕ × Package) → H Unit
unfolding product_labels folder_keyboard
list_charges w message [] = answer message no_charges none
list_charges w message (p ∷ rest) = do
  let product_map = product_labels w (codes "🔋") (p ∷ rest)
  update_data (λ d. record d { charge_product_map = some product_map })
  set_state (in_charge ChargeState.browsing_products)
  answer message choose_charge (folder_keyboard product_map customer_back_button_text)

unfoldable pub open_charge_subcategory : World → Message → Option ℕ → H Unit
unfolding list_charges products_of
open_charge_subcategory w message none = answer message choose_from_keyboard none
open_charge_subcategory w message (some category_id) = do
  products ← call (fetch (products_of category_id))
  list_charges w message products

unfoldable pub back_to_charge_operators : Message → Option Labels → H Unit
unfolding folder_keyboard labels_of
back_to_charge_operators message operator_map = do
  set_state (in_charge ChargeState.browsing_operators)
  answer message choose_operator
      (folder_keyboard (labels_of operator_map) customer_back_to_menu_button_text)

unfoldable pub handle_charge_subcategory_pick : World → Message → H Unit
unfolding text_is picked open_charge_subcategory back_to_charge_operators
handle_charge_subcategory_pick w message = do
  data_ ← get_data
  if text_is customer_back_button_text message
      then back_to_charge_operators message data_.charge_operator_map
      else open_charge_subcategory w message (picked message.text data_.charge_subcategory_map)

unfoldable pub show_charge : Message → ℕ → Option (Package × Category) → H Unit
show_charge message package_id none = answer message charge_gone none
show_charge message package_id (some (p, c)) = do
  set_state (in_charge ChargeState.product_selected)
  update_data (λ d. record d { selected_charge_package_id = some package_id })
  answer message (charge_detail c.operator_name c.title p.name p.sale_price)
      (some customer_charge_detail_keyboard)

unfoldable pub open_charge : Message → Option ℕ → H Unit
unfolding show_charge package_with_category
open_charge message none = answer message choose_from_keyboard none
open_charge message (some package_id) = do
  row ← call (fetch (package_with_category package_id))
  show_charge message package_id row

unfoldable pub back_to_charge_subcategories : Message → Option Labels → H Unit
unfolding folder_keyboard labels_of
back_to_charge_subcategories message subcategory_map = do
  set_state (in_charge ChargeState.browsing_subcategories)
  answer message choose_subcategory
      (folder_keyboard (labels_of subcategory_map) customer_back_button_text)

unfoldable pub handle_charge_product_pick : Message → H Unit
unfolding text_is picked open_charge back_to_charge_subcategories
handle_charge_product_pick message = do
  data_ ← get_data
  if text_is customer_back_button_text message
      then back_to_charge_subcategories message data_.charge_subcategory_map
      else open_charge message (picked message.text data_.charge_product_map)

unfoldable pub handle_charge_detail_back : Message → H Unit
unfolding folder_keyboard labels_of
handle_charge_detail_back message = do
  data_ ← get_data
  set_state (in_charge ChargeState.browsing_products)
  answer message choose_charge
      (folder_keyboard (labels_of data_.charge_product_map) customer_back_button_text)

unfoldable pub ask_for_quantity : Message → ℕ → Option ℕ → H Unit
unfolding back_to_main_menu
ask_for_quantity message reseller_id none = back_to_main_menu message reseller_id
ask_for_quantity message reseller_id (some package_id) = do
  set_state (in_charge ChargeState.entering_quantity)
  answer message ask_quantity (some customer_charge_quantity_keyboard)

unfoldable pub handle_buy_charge_button : Message → ℕ → H Unit
unfolding ask_for_quantity
handle_buy_charge_button message reseller_id = do
  data_ ← get_data
  ask_for_quantity message reseller_id data_.selected_charge_package_id

-- Whether the package was still there.
unfoldable pub show_product_detail : Message → Option (Package × Category) → H Bool
show_product_detail message none = done false
show_product_detail message (some (p, c)) = do
  set_state (in_charge ChargeState.product_selected)
  answer message (charge_detail c.operator_name c.title p.name p.sale_price)
      (some customer_charge_detail_keyboard)
  done true

unfoldable pub after_detail : Message → ℕ → Option (Package × Category) → H Unit
unfolding show_product_detail back_to_main_menu
after_detail message reseller_id row = do
  shown ← show_product_detail message row
  if shown then done tt else back_to_main_menu message reseller_id

unfoldable pub leave_quantity : Message → ℕ → Option ℕ → H Unit
unfolding back_to_main_menu after_detail package_with_category
leave_quantity message reseller_id none = back_to_main_menu message reseller_id
leave_quantity message reseller_id (some package_id) = do
  row ← call (fetch (package_with_category package_id))
  after_detail message reseller_id row

unfoldable pub handle_charge_quantity_back : Message → ℕ → H Unit
unfolding leave_quantity
handle_charge_quantity_back message reseller_id = do
  data_ ← get_data
  leave_quantity message reseller_id data_.selected_charge_package_id
