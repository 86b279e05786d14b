-- ===== src/Customer/Dispatch.antt =====
-- handlers/customer/__init__.py and the filters of the three routers, in the order in which they are
-- tried: the first that matches runs. The routers of the reseller and the operator come before: they
-- take the messages of the owner, of chats in their own states, and the command /pending_orders.
use baste.Prelude.{ℕ, Bool, false, Option, none, some, if◌then◌else◌}
use baste.Text.{Text, codes}
use baste.Text.Lines.{is_empty}
use baste.Keyboards.Customer.{
  customer_catalog_button_text, customer_support_button_text, customer_back_button_text,
  customer_buy_button_text, customer_charge_button_text, customer_buy_charge_button_text,
  customer_wallet_button_text, customer_topup_button_text,
}
use baste.Chat.{
  World, Message, text_is, H, ◌>>=◌, done, get_state, ChatState, in_catalog, in_order, in_charge,
  in_wallet, CatalogState, OrderState, ChargeState, WalletState,
}
use baste.Customer.{customer_cancel, customer_start, show_support_from_keyboard, starts_with}
use baste.Customer.Browse.{
  show_operators, handle_operator_pick, handle_subcategory_pick, handle_package_pick,
  handle_package_detail_back, handle_buy_button, cancel_phone_number_entry,
}
use baste.Customer.Purchase.{receive_phone_number_contact, receive_phone_number_text}
use baste.Customer.Receipt.{apply_discount_code, receive_receipt}
use baste.Customer.ChargeShop.{
  show_charge_operators, handle_charge_operator_pick, handle_charge_subcategory_pick,
  handle_charge_product_pick, handle_charge_detail_back, handle_buy_charge_button,
  handle_charge_quantity_back,
}
use baste.Customer.ChargeShop.Quantity.{handle_charge_quantity_input}
use baste.Customer.Topup.{
  show_wallet, start_topup, choose_method, receive_topup_amount, receive_topup_receipt,
}

unfoldable pub topup_photo : Message → ℕ → Option Text → H Unit
topup_photo m reseller_id none = done tt
topup_photo m reseller_id (some photo) = receive_topup_receipt m photo reseller_id

unfoldable pub in_wallet_state : World → Message → ℕ → Option ChatState → H Unit
unfolding choose_method receive_topup_amount topup_photo
in_wallet_state w m reseller_id (some (in_wallet WalletState.choosing_method)) =
    choose_method m reseller_id
in_wallet_state w m reseller_id (some (in_wallet WalletState.entering_amount)) =
    receive_topup_amount w m reseller_id
in_wallet_state w m reseller_id (some (in_wallet WalletState.uploading_receipt)) =
    topup_photo m reseller_id m.photo
in_wallet_state w m reseller_id _ = done tt

unfoldable pub wallet_router : World → Message → ℕ → Option ChatState → H Unit
unfolding text_is show_wallet start_topup in_wallet_state
wallet_router w m reseller_id state =
    if text_is customer_wallet_button_text m
    then show_wallet m reseller_id
    else if text_is customer_topup_button_text m
    then start_topup m reseller_id
    else in_wallet_state w m reseller_id state

unfoldable pub in_charge_state : World → Message → ℕ → Option ChatState → H Unit
unfolding wallet_router text_is
in_charge_state w m reseller_id (some (in_charge ChargeState.browsing_operators)) =
    handle_charge_operator_pick m reseller_id
in_charge_state w m reseller_id (some (in_charge ChargeState.browsing_subcategories)) =
    handle_charge_subcategory_pick w m
in_charge_state w m reseller_id (some (in_charge ChargeState.browsing_products)) =
    handle_charge_product_pick m
in_charge_state w m reseller_id (some (in_charge ChargeState.product_selected)) =
    if text_is customer_back_button_text m
    then handle_charge_detail_back m
    else if text_is customer_buy_charge_button_text m
    then handle_buy_charge_button m reseller_id
    else wallet_router w m reseller_id (some (in_charge ChargeState.product_selected))
in_charge_state w m reseller_id (some (in_charge ChargeState.entering_quantity)) =
    if text_is customer_back_button_text m
    then handle_charge_quantity_back m reseller_id
    else handle_charge_quantity_input w m reseller_id
in_charge_state w m reseller_id state = wallet_router w m reseller_id state

unfoldable pub charge_router : World → Message → ℕ → Option ChatState → H Unit
unfolding text_is show_charge_operators in_charge_state
charge_router w m reseller_id state =
    if text_is customer_charge_button_text m
    then show_charge_operators w m reseller_id
    else in_charge_state w m reseller_id state

-- `F.text`, `F.contact` and `F.photo` want a value that is not empty.
unfoldable pub typed_number : World → Message → ℕ → Option Text → Option Text → H Unit → H Unit
unfolding is_empty
typed_number w m reseller_id (some phone_number) text otherwise =
    receive_phone_number_contact w m phone_number reseller_id
typed_number w m reseller_id none none otherwise = otherwise
typed_number w m reseller_id none (some text) otherwise =
    if is_empty text then otherwise else receive_phone_number_text w m text reseller_id

unfoldable pub awaited_photo : World → Message → ℕ → Option Text → H Unit → H Unit
awaited_photo w m reseller_id none otherwise = otherwise
awaited_photo w m reseller_id (some photo) otherwise = receive_receipt w m photo reseller_id

unfoldable pub awaited_receipt : World → Message → ℕ → Option Text → H Unit → H Unit
unfolding starts_with awaited_photo
awaited_receipt w m reseller_id none otherwise = awaited_photo w m reseller_id m.photo otherwise
awaited_receipt w m reseller_id (some text) otherwise =
    if starts_with (codes "/discount ") text
    then apply_discount_code w m text reseller_id
    else awaited_photo w m reseller_id m.photo otherwise

unfoldable pub in_orders_state : World → Message → ℕ → Option ChatState → H Unit
unfolding charge_router text_is typed_number awaited_receipt
in_orders_state w m reseller_id (some (in_catalog CatalogState.browsing_operators)) =
    handle_operator_pick m reseller_id
in_orders_state w m reseller_id (some (in_catalog CatalogState.browsing_subcategories)) =
    handle_subcategory_pick w m reseller_id
in_orders_state w m reseller_id (some (in_catalog CatalogState.browsing_packages)) =
    handle_package_pick m
in_orders_state w m reseller_id (some (in_catalog CatalogState.package_selected)) =
    if text_is customer_back_button_text m
    then handle_package_detail_back m
    else if text_is customer_buy_button_text m
    then handle_buy_button m reseller_id
    else charge_router w m reseller_id (some (in_catalog CatalogState.package_selected))
in_orders_state w m reseller_id (some (in_catalog CatalogState.entering_phone_number)) =
    if text_is customer_back_button_text m
    then cancel_phone_number_entry m
    else typed_number w m reseller_id m.contact m.text
        (charge_router w m reseller_id (some (in_catalog CatalogState.entering_phone_number)))
in_orders_state w m reseller_id (some (in_order OrderState.waiting_receipt)) =
    awaited_receipt w m reseller_id m.text
      (charge_router w m reseller_id (some (in_order OrderState.waiting_receipt)))
in_orders_state w m reseller_id state = charge_router w m reseller_id state

unfoldable pub starts_command : Option Text → Bool
unfolding starts_with
starts_command none = false
starts_command (some text) = starts_with (codes "/start") text

unfoldable pub start_with : World → Message → ℕ → Option Text → H Unit
start_with w m reseller_id none = done tt
start_with w m reseller_id (some text) = customer_start w m text reseller_id

unfoldable pub orders_router : World → Message → ℕ → Option ChatState → H Unit
unfolding text_is starts_command start_with in_orders_state
orders_router w m reseller_id state =
    if text_is (codes "/cancel") m
    then customer_cancel m reseller_id
    else if starts_command m.text
    then start_with w m reseller_id m.text
    else if text_is customer_support_button_text m
    then show_support_from_keyboard m reseller_id
    else if text_is customer_catalog_button_text m
    then show_operators w m reseller_id
    else in_orders_state w m reseller_id state

-- A message of a customer.
unfoldable pub customer_message : World → ℕ → Message → H Unit
unfolding orders_router
customer_message w reseller_id m = do state ← get_state; orders_router w m reseller_id state
