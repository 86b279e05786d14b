-- ===== src/Customer/ChargeShop/Quantity.antt =====
-- handlers/customer/charge.py: the quantity that a customer types, and the purchase that delivers the
-- codes at once.
use baste.Prelude.{
  ℕ, ◌+◌, ◌*◌, Bool, true, ◌&&◌, not, Option, none, some, [], ◌∷◌, ltb, ◌==◌, if◌then◌else◌,
}
use baste.Prelude.Int.{ℤ, pos, ◌*ℤ◌}
use baste.Text.{Text}
use baste.Text.Lines.{strip, is_empty}
use baste.Table.{find}
use baste.Schema.{Package, Reseller}
use baste.Exec.{
  Result, ok, err, customer_blacklisted, insufficient_balance, out_of_stock, value_error, fetch,
}
use baste.Orders.{get_or_create_customer}
use baste.Charge.{BulkDelivery, purchase_charge_bulk}
use baste.Keyboards.Customer.{customer_main_reply_keyboard, customer_charge_quantity_keyboard}
use baste.Chat.{
  World, Message, H, ◌>>=◌, ◌>>◌, done, fail, call, attempt, answer, send, clear, get_data, present,
}
use baste.Chat.Replies.{
  Reply, invalid_quantity, charge_gone, total_is, charge_blacklisted, balance_too_low,
  only_available, charge_delivered, charge_sold,
}
use baste.Customer.{back_to_main_menu, is_set}

-- `int(raw)` of a text of digits: each needs a value, which `isdigit` does not promise.
unfoldable pub digits_value_by : (ℕ → Option ℕ) → ℕ → Text → Option ℕ
digits_value_by digit_value n [] = some n
digits_value_by digit_value n (c ∷ t) = elim (digit_value c) [
  | none ↦ none
  | some d ↦ digits_value_by digit_value (10 * n + d) t
]

unfoldable pub only_digits : (ℕ → Bool) → Text → Bool
only_digits is_digit [] = true
only_digits is_digit (c ∷ t) = is_digit c && only_digits is_digit t

unfoldable pub is_digits : (ℕ → Bool) → Text → Bool
unfolding is_empty only_digits
is_digits is_digit t = not (is_empty t) && only_digits is_digit t

-- What was typed: `some none` where `int` raises.
unfoldable pub typed_quantity : World → Option Text → Option (Option ℕ)
unfolding is_digits digits_value_by strip
typed_quantity w none = none
typed_quantity w (some raw) =
    if is_digits w.is_digit (strip raw)
    then some (digits_value_by w.digit_value 0 (strip raw))
    else none

unfoldable pub is_positive : ℕ → Bool
is_positive n = ltb 0 n

-- The message to the reseller; an id of 0 is no id.
unfoldable pub tell_sale : Option Reseller → ℕ → ℤ → H Unit
tell_sale none quantity total = done tt
tell_sale (some r) quantity total =
    if r.telegram_numeric_id == 0
    then done tt
    else send r.telegram_numeric_id (charge_sold quantity total) none

unfoldable pub hand_over : Message → ℕ → ℕ → BulkDelivery → H Unit
unfolding is_set tell_sale
hand_over message reseller_id quantity result = do
  clear
  reseller ← call (fetch (λ s. find s.resellers reseller_id))
  r ← present reseller
  answer message (charge_delivered quantity result.total_price result.orders r.support_contact)
      (some (customer_main_reply_keyboard (is_set r.support_contact)))
  tell_sale reseller quantity result.total_price

-- `if not available`: a count of 0 is none.
unfoldable pub sold_out : Message → Option ℕ → H Unit
sold_out message none = answer message Reply.out_of_stock (some customer_charge_quantity_keyboard)
sold_out message (some available) =
    if available == 0
    then answer message Reply.out_of_stock (some customer_charge_quantity_keyboard)
    else answer message (only_available available) (some customer_charge_quantity_keyboard)

unfoldable pub after_bulk : Message → ℕ → ℕ → Result BulkDelivery → H Unit
unfolding hand_over sold_out
after_bulk message reseller_id quantity (ok result) = hand_over message reseller_id quantity result
after_bulk message reseller_id quantity (err customer_blacklisted) = do
  answer message charge_blacklisted none
  clear
after_bulk message reseller_id quantity (err insufficient_balance) =
    answer message balance_too_low none
after_bulk message reseller_id quantity (err (out_of_stock available)) = sold_out message available
after_bulk message reseller_id quantity (err e) = fail e

unfoldable pub buy_charges : World → Message → ℕ → ℕ → ℕ → Option Package → H Unit
unfolding back_to_main_menu after_bulk
buy_charges w message reseller_id package_id quantity none = do
  answer message charge_gone none
  back_to_main_menu message reseller_id
buy_charges w message reseller_id package_id quantity (some package_row) = do
  answer message (total_is quantity (package_row.sale_price *ℤ pos quantity)) none
  customer ← present (← call (get_or_create_customer reseller_id message.user))
  result ← attempt (purchase_charge_bulk w.round_env reseller_id package_id customer.0 quantity)
  after_bulk message reseller_id quantity result

unfoldable pub order_quantity : World → Message → ℕ → ℕ → Option (Option ℕ) → H Unit
unfolding buy_charges is_positive
order_quantity w message reseller_id package_id none =
    answer message invalid_quantity (some customer_charge_quantity_keyboard)
order_quantity w message reseller_id package_id (some none) = fail value_error
order_quantity w message reseller_id package_id (some (some quantity)) =
    if is_positive quantity
    then (do
      package_row ← call (fetch (λ s. find s.packages package_id))
      buy_charges w message reseller_id package_id quantity package_row)
    else answer message invalid_quantity (some customer_charge_quantity_keyboard)

unfoldable pub quantity_for : World → Message → ℕ → Option ℕ → H Unit
unfolding back_to_main_menu order_quantity typed_quantity
quantity_for w message reseller_id none = back_to_main_menu message reseller_id
quantity_for w message reseller_id (some package_id) =
    order_quantity w message reseller_id package_id (typed_quantity w message.text)

unfoldable pub handle_charge_quantity_input : World → Message → ℕ → H Unit
unfolding quantity_for
handle_charge_quantity_input w message reseller_id = do
  data_ ← get_data
  quantity_for w message reseller_id data_.selected_charge_package_id
