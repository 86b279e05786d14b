-- ===== src/Customer/Browse.antt =====
-- handlers/customer/orders.py: the catalog of packages, from the folders to the button that buys.
use baste.Prelude.{ℕ, Option, none, some, List, [], ◌∷◌, if◌then◌else◌}
use baste.Text.{Text, codes}
use baste.Schema.{CatalogType, Category, Package}
use baste.Exec.{fetch}
use baste.ForcedJoin.{user_has_joined_all}
use baste.Keyboards.{Keyboard}
use baste.Keyboards.Customer.{
  customer_folder_reply_keyboard, customer_package_detail_keyboard, customer_phone_number_keyboard,
  customer_back_to_menu_button_text, customer_back_button_text,
}
use baste.Chat.{
  World, Message, text_is, H, ◌>>=◌, ◌>>◌, call, answer, get_data, set_state, update_data,
  in_catalog, CatalogState, Labels, labels_of, picked,
}
use baste.Chat.Replies.{
  join_channels, nothing_for_sale, choose_operator, choose_from_keyboard, no_subcategories,
  choose_subcategory, no_packages, choose_package, package_gone, package_detail, ask_phone_number,
  buy_again,
}
use baste.Customer.{
  back_to_main_menu, operators_of, subcategories_of, products_of, package_with_category,
  folder_labels, product_labels, texts_of,
}

unfoldable pub folder_keyboard : Labels → Text → Option Keyboard
unfolding texts_of
folder_keyboard d back_text = some (customer_folder_reply_keyboard (texts_of d) back_text)

unfoldable pub list_operators : Message → List (ℕ × Category) → H Unit
unfolding folder_labels folder_keyboard
list_operators message [] = answer message nothing_for_sale none
list_operators message (op ∷ rest) = do
  let operator_map = folder_labels (codes "📁") (λ c. c.operator_name) (op ∷ rest)
  set_state (in_catalog CatalogState.browsing_operators)
  update_data (λ d. record d { operator_map = some operator_map })
  answer message choose_operator (folder_keyboard operator_map customer_back_to_menu_button_text)

unfoldable pub show_operators : World → Message → ℕ → H Unit
unfolding list_operators operators_of
show_operators w message reseller_id = do
  joined ← call (user_has_joined_all w.get_chat_member reseller_id)
  if joined.0
      then (do
        operators ← call (fetch (operators_of reseller_id CatalogType.package_catalog))
        list_operators message operators)
      else answer message (join_channels joined.1) none

unfoldable pub list_subcategories : Message → List (ℕ × Category) → H Unit
unfolding folder_labels folder_keyboard
list_subcategories message [] = answer message no_subcategories none
list_subcategories message (c ∷ rest) = do
  let subcategory_map = folder_labels (codes "📂") (λ c. c.title) (c ∷ rest)
  set_state (in_catalog CatalogState.browsing_subcategories)
  update_data (λ d. record d { subcategory_map = some subcategory_map })
  answer message choose_subcategory (folder_keyboard subcategory_map customer_back_button_text)

unfoldable pub open_operator : Message → Option ℕ → H Unit
unfolding list_subcategories subcategories_of
open_operator message none = answer message choose_from_keyboard none
open_operator message (some operator_id) = do
  subcategories ← call (fetch (subcategories_of operator_id))
  list_subcategories message subcategories

unfoldable pub handle_operator_pick : Message → ℕ → H Unit
unfolding text_is picked open_operator back_to_main_menu
handle_operator_pick message reseller_id =
    if text_is customer_back_to_menu_button_text message
    then back_to_main_menu message reseller_id
    else do data_ ← get_data; open_operator message (picked message.text data_.operator_map)

unfoldable pub list_packages : World → Message → List (ℕ × Package) → H Unit
unfolding product_labels folder_keyboard
list_packages w message [] = answer message no_packages none
list_packages w message (p ∷ rest) = do
  let package_map = product_labels w (codes "📦") (p ∷ rest)
  update_data (λ d. record d { package_map = some package_map })
  set_state (in_catalog CatalogState.browsing_packages)
  answer message choose_package (folder_keyboard package_map customer_back_button_text)

unfoldable pub open_subcategory : World → Message → Option ℕ → H Unit
unfolding list_packages products_of
open_subcategory w message none = answer message choose_from_keyboard none
open_subcategory w message (some category_id) = do
  packages ← call (fetch (products_of category_id))
  list_packages w message packages

unfoldable pub handle_subcategory_pick : World → Message → ℕ → H Unit
unfolding text_is picked open_subcategory show_operators
handle_subcategory_pick w message reseller_id =
    if text_is customer_back_button_text message
    then show_operators w message reseller_id
    else do data_ ← get_data; open_subcategory w message (picked message.text data_.subcategory_map)

unfoldable pub show_package : Message → ℕ → Option (Package × Category) → H Unit
show_package message package_id none = answer message package_gone none
show_package message package_id (some (p, c)) = do
  set_state (in_catalog CatalogState.package_selected)
  update_data (λ d. record d { selected_package_id = some package_id })
  answer message (package_detail c.operator_name c.title p.name p.sale_price)
      (some customer_package_detail_keyboard)

unfoldable pub open_package : Message → Option ℕ → H Unit
unfolding show_package package_with_category
open_package message none = answer message choose_from_keyboard none
open_package message (some package_id) = do
  row ← call (fetch (package_with_category package_id))
  show_package message package_id row

unfoldable pub back_to_operators : Message → Option Labels → H Unit
unfolding folder_keyboard labels_of
back_to_operators message operator_map = do
  set_state (in_catalog CatalogState.browsing_operators)
  answer message choose_operator
      (folder_keyboard (labels_of operator_map) customer_back_to_menu_button_text)

unfoldable pub handle_package_pick : Message → H Unit
unfolding text_is picked open_package back_to_operators
handle_package_pick message = do
  data_ ← get_data
  if text_is customer_back_button_text message
      then back_to_operators message data_.operator_map
      else open_package message (picked message.text data_.package_map)

unfoldable pub handle_package_detail_back : Message → H Unit
unfolding folder_keyboard labels_of
handle_package_detail_back message = do
  data_ ← get_data
  set_state (in_catalog CatalogState.browsing_packages)
  answer message choose_package
      (folder_keyboard (labels_of data_.package_map) customer_back_button_text)

unfoldable pub ask_for_number : Message → ℕ → Option ℕ → H Unit
unfolding back_to_main_menu
ask_for_number message reseller_id none = back_to_main_menu message reseller_id
ask_for_number message reseller_id (some package_id) = do
  set_state (in_catalog CatalogState.entering_phone_number)
  answer message ask_phone_number (some customer_phone_number_keyboard)

unfoldable pub handle_buy_button : Message → ℕ → H Unit
unfolding ask_for_number
handle_buy_button message reseller_id = do
  data_ ← get_data
  ask_for_number message reseller_id data_.selected_package_id

unfoldable pub cancel_phone_number_entry : Message → H Unit
cancel_phone_number_entry message = do
  set_state (in_catalog CatalogState.package_selected)
  answer message buy_again (some customer_package_detail_keyboard)
