-- ===== src/Customer/Purchase.antt =====
-- handlers/customer/orders.py: the number to activate, and the purchase: from the wallet if it
-- suffices, else an order that waits for a receipt.
use baste.Prelude.{
  ℕ, Bool, true, ◌&&◌, Option, none, some, List, [], ◌∷◌, ◌++◌, if◌then◌else◌, ◌==◌, length, keep,
}
use baste.Text.{Text, codes}
use baste.Table.{find}
use baste.Schema.{Order, Package, Category, PaymentCard, Reseller}
use baste.Exec.{Result, ok, err, customer_blacklisted, insufficient_balance, fetch}
use baste.Orders.{get_or_create_customer, create_order, create_order_paid_by_wallet}
use baste.Cards.{list_cards, get_zarinpal_merchant}
use baste.Keyboards.{remove_keyboard}
use baste.Keyboards.Customer.{customer_main_reply_keyboard}
use baste.Keyboards.Review.{activate_order_button}
use baste.Chat.{
  World, Message, H, ◌>>=◌, ◌>>◌, done, fail, call, attempt, answer, send, clear, get_data,
  set_state, update_data, present, in_order, OrderState,
}
use baste.Chat.Replies.{
  invalid_phone_number, blacklisted, paid_from_wallet, new_paid_order, pay_by_receipt,
}
use baste.Customer.{
  back_to_main_menu, package_with_category, contact_of, has_support, is_set, starts_with,
}

unfoldable pub slice_from : ℕ → Text → Text
slice_from ℕ.zero t = t
slice_from (ℕ.suc n) [] = []
slice_from (ℕ.suc n) (c ∷ t) = slice_from n t

-- The digits, with the country's prefix written as a 0.
unfoldable pub national : Text → Text
unfolding starts_with slice_from
national digits =
    if starts_with (codes "0098") digits
    then b'0' ∷ slice_from 4 digits
    else if starts_with (codes "98") digits && length digits == 12
    then b'0' ∷ slice_from 2 digits
    else digits

unfoldable pub mobile : Text → Option Text
unfolding starts_with
mobile digits = if length digits == 11 && starts_with (codes "09") digits then some digits else none

unfoldable pub normalize_phone_number : (ℕ → Bool) → Text → Option Text
unfolding national mobile
normalize_phone_number is_digit raw = mobile (national (keep is_digit raw))

-- `operator - category / package`, or the Persian for `unknown`.
unfoldable pub package_label : Option (Package × Category) → Text
package_label none = codes "\u{646}\u{627}\u{645}\u{634}\u{62e}\u{635}"
package_label (some (p, c)) = c.operator_name ++ codes " - " ++ c.title ++ codes " / " ++ p.name

-- The message to the reseller; a failure to send it is ignored. An id of 0 is no id.
unfoldable pub tell_reseller : Option Reseller → ℕ × Order → Text → Text → H Unit
tell_reseller none order label phone_number = done tt
tell_reseller (some r) order label phone_number =
    if r.telegram_numeric_id == 0
    then done tt
    else send r.telegram_numeric_id
        (new_paid_order order.1.order_code order.1.package_price label phone_number)
        (some (activate_order_button order.0))

unfoldable pub finish_paid : Message → ℕ → Text → Text → ℕ × Order → H Unit
unfolding has_support tell_reseller is_set
finish_paid message reseller_id label phone_number order = do
  clear
  reseller ← call (fetch (λ s. find s.resellers reseller_id))
  r ← present reseller
  answer message (paid_from_wallet order.1.order_code label phone_number r.support_contact)
      (some (customer_main_reply_keyboard (is_set r.support_contact)))
  tell_reseller reseller order label phone_number

-- The order that waits for a receipt.
unfoldable pub await_receipt : Message → ℕ → Text → Text → ℕ × Order → H Unit
unfolding contact_of
await_receipt message reseller_id label phone_number order = do
  reseller ← call (fetch (λ s. find s.resellers reseller_id))
  update_data (λ d. record d { order_id = some order.0 })
  set_state (in_order OrderState.waiting_receipt)
  active_cards ← call (list_cards reseller_id true)
  zarinpal_merchant ← call (get_zarinpal_merchant reseller_id)
  r ← present reseller
  answer message
      (pay_by_receipt order.1.order_code label phone_number order.1.package_price
        (list_of active_cards) zarinpal_merchant r.support_contact)
      (some remove_keyboard)
  where
    list_of : List (ℕ × PaymentCard) → List PaymentCard
    list_of [] = []
    list_of (c ∷ rest) = c.1 ∷ list_of rest

unfoldable pub refuse : Message → H Unit
refuse message = do answer message blacklisted none; clear

unfoldable pub after_order : Message → ℕ → Text → Text → Result (ℕ × Order) → H Unit
unfolding await_receipt refuse
after_order message reseller_id label phone_number (ok order) =
    await_receipt message reseller_id label phone_number order
after_order message reseller_id label phone_number (err customer_blacklisted) = refuse message
after_order message reseller_id label phone_number (err e) = fail e

-- What the second order reads from the clocks and from `random` is not what the first one read.
unfoldable pub by_receipt : World → Message → ℕ → ℕ → ℕ → Text → Text → H Unit
unfolding after_order
by_receipt w message reseller_id package_id customer_id phone_number label = do
  order ←
      attempt (create_order (w.round_env 0) reseller_id package_id customer_id (some phone_number))
  after_order message reseller_id label phone_number order

unfoldable pub after_payment :
    World → Message → ℕ → ℕ → ℕ → Text → Text → Result (ℕ × Order) → H Unit
unfolding finish_paid refuse by_receipt
after_payment w message reseller_id package_id customer_id phone_number label (ok order) =
    finish_paid message reseller_id label phone_number order
after_payment w message reseller_id package_id customer_id phone_number label
      (err customer_blacklisted) =
    refuse message
after_payment w message reseller_id package_id customer_id phone_number label
      (err insufficient_balance) =
    by_receipt w message reseller_id package_id customer_id phone_number label
after_payment w message reseller_id package_id customer_id phone_number label (err e) = fail e

unfoldable pub buy_package : World → Message → ℕ → Text → Option ℕ → H Unit
unfolding after_payment back_to_main_menu package_label package_with_category
buy_package w message reseller_id phone_number none = back_to_main_menu message reseller_id
buy_package w message reseller_id phone_number (some package_id) = do
  customer ← present (← call (get_or_create_customer reseller_id message.user))
  package_info ← call (fetch (package_with_category package_id))
  order ←
      attempt
        (create_order_paid_by_wallet w.env reseller_id package_id customer.0 (some phone_number))
  after_payment w message reseller_id package_id customer.0 phone_number
      (package_label package_info) order

unfoldable pub process_purchase : World → Message → ℕ → Text → H Unit
unfolding buy_package
process_purchase w message reseller_id phone_number = do
  data_ ← get_data
  buy_package w message reseller_id phone_number data_.selected_package_id

unfoldable pub receive_phone_number_contact : World → Message → Text → ℕ → H Unit
unfolding process_purchase
receive_phone_number_contact w message phone_number reseller_id =
    process_purchase w message reseller_id phone_number

unfoldable pub buy_for : World → Message → ℕ → Option Text → H Unit
unfolding process_purchase
buy_for w message reseller_id none = answer message invalid_phone_number none
buy_for w message reseller_id (some phone) = process_purchase w message reseller_id phone

unfoldable pub receive_phone_number_text : World → Message → Text → ℕ → H Unit
unfolding buy_for normalize_phone_number
receive_phone_number_text w message text reseller_id =
    buy_for w message reseller_id (normalize_phone_number w.is_digit text)
