-- ===== src/Reseller/ChargeStock/Actions.antt =====
-- handlers/reseller/charge_stock.py: what is done with the codes of a product.
use baste.Prelude.{ℕ, Option, none, some, List, [], ◌∷◌, ◌==◌, if◌then◌else◌, map}
use baste.Text.{Text}
use baste.Text.Lines.{is_empty}
use baste.Table.{find}
use baste.Schema.{Package, ChargeCode}
use baste.Exec.{fetch}
use baste.Charge.{
  add_charge_codes, count_available_codes, list_available_codes, delete_available_code,
  clear_available_codes,
}
use baste.Charge.Sold.{SoldCode, list_sold_codes}
use baste.Keyboards.Stock.{charge_stock_menu, charge_code_remove_buttons}
use baste.Chat.{
  Message, H, ◌>>=◌, ◌>>◌, done, call, send, answer, clear, get_data, set_state, update_data,
  in_charge_codes, ChargeCodeState,
}
use baste.Chat.Replies.{
  StockAction, product_gone, invalid_codes, no_valid_codes, ask_codes, stock_empty,
  nothing_to_remove, choose_code_to_remove, nothing_sold, stock_is, sold_are, codes_added,
  codes_cleared, code_deleted_last, code_deleted,
}
use baste.Reseller.OrderReview.{acknowledge}
use baste.Reseller.ChargeStock.{part, int_part, action_of}

unfoldable pub show_stock : ℕ → Package → ℕ → List (ℕ × ChargeCode) → H Unit
show_stock user product total [] = send user (stock_empty product.name) (some charge_stock_menu)
show_stock user product total (c ∷ rest) =
    send user (stock_is product.name total (map (λ c. c.1.code) (c ∷ rest)))
      (some charge_stock_menu)

unfoldable pub offer_removal : ℕ → Package → ℕ → List (ℕ × ChargeCode) → H Unit
offer_removal user product package_id [] =
    send user (nothing_to_remove product.name) (some charge_stock_menu)
offer_removal user product package_id (c ∷ rest) =
    send user (choose_code_to_remove product.name)
      (some (charge_code_remove_buttons (c ∷ rest) package_id))

unfoldable pub show_sold : ℕ → Package → List SoldCode → H Unit
show_sold user product [] = send user (nothing_sold product.name) (some charge_stock_menu)
show_sold user product (c ∷ rest) =
    send user (sold_are product.name (c ∷ rest)) (some charge_stock_menu)

unfoldable pub act : ℕ → ℕ → Package → Option StockAction → H Unit
unfolding show_stock offer_removal show_sold
act user package_id product none = done tt
act user package_id product (some StockAction.add) = do
  update_data (λ d. record d { charge_package_id = some package_id })
  set_state (in_charge_codes ChargeCodeState.entering_codes)
  send user (ask_codes product.name) none
act user package_id product (some StockAction.list) = do
  available ← call (list_available_codes package_id 60)
  total ← call (count_available_codes package_id)
  show_stock user product total available
act user package_id product (some StockAction.remove) = do
  available ← call (list_available_codes package_id 60)
  offer_removal user product package_id available
act user package_id product (some StockAction.sold) = do
  rows ← call (list_sold_codes package_id 60)
  show_sold user product rows

unfoldable pub act_on : ℕ → Text → ℕ → Option Package → H Unit
unfolding act action_of
act_on user action package_id none = send user product_gone (some charge_stock_menu)
act_on user action package_id (some product) = act user package_id product (action_of action)

unfoldable pub act_on_product : ℕ → List Text → H Unit
unfolding part int_part act_on acknowledge
act_on_product user parts = do
  action ← part 2 parts
  package_id ← int_part 3 parts
  product ← call (fetch (λ s. find s.packages package_id))
  act_on user action package_id product
  acknowledge user

unfoldable pub report_added : Message → ℕ → H Unit
report_added message added =
    if added == 0
    then answer message no_valid_codes none
    else do answer message (codes_added added) (some charge_stock_menu); clear

unfoldable pub take_codes : Message → ℕ → Option ℕ → Option Text → H Unit
unfolding report_added is_empty
take_codes message reseller_id none text = answer message invalid_codes none
take_codes message reseller_id (some package_id) none = answer message invalid_codes none
take_codes message reseller_id (some package_id) (some text) =
    if is_empty text
    then answer message invalid_codes none
    else do added ← call (add_charge_codes reseller_id package_id text); report_added message added

unfoldable pub receive_charge_codes : Message → ℕ → H Unit
unfolding take_codes
receive_charge_codes message reseller_id = do
  data_ ← get_data
  take_codes message reseller_id data_.charge_package_id message.text

unfoldable pub show_rest : ℕ → ℕ → List (ℕ × ChargeCode) → H Unit
show_rest user package_id [] = send user code_deleted_last none
show_rest user package_id (c ∷ rest) =
    send user code_deleted (some (charge_code_remove_buttons (c ∷ rest) package_id))

unfoldable pub delete_single_code : ℕ → List Text → H Unit
unfolding int_part show_rest acknowledge
delete_single_code user parts = do
  code_id ← int_part 2 parts
  package_id ← int_part 3 parts
  call (delete_available_code code_id)
  available ← call (list_available_codes package_id 60)
  show_rest user package_id available
  acknowledge user

unfoldable pub clear_all_codes : ℕ → List Text → H Unit
unfolding int_part acknowledge
clear_all_codes user parts = do
  package_id ← int_part 2 parts
  count ← call (clear_available_codes package_id)
  send user (codes_cleared count) none
  acknowledge user
