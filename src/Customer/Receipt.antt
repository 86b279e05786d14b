-- ===== src/Customer/Receipt.antt =====
-- handlers/customer/orders.py: the discount code and the receipt of an order that waits for one.
use baste.Prelude.{ℕ, Option, none, some, if◌then◌else◌}
use baste.Prelude.Int.{ℤ, pos, ◌*ℤ◌}
use baste.Text.{Text}
use baste.Text.Lines.{strip, is_empty}
use baste.Table.{find}
use baste.Schema.{Db, Order, DiscountCode}
use baste.Exec.{
  Result, ok, err, discount_not_found, discount_expired, discount_exhausted, pending_order_limit,
  order_insufficient_credit, type_error, index_error, not_found, fetch, execute,
}
use baste.Orders.{submit_receipt, update_order}
use baste.Discounts.{validate_discount_code, increment_usage, apply_discount}
use baste.Notifications.{
  notify_reseller_insufficient_credit, notify_super_admin_insufficient_credit,
}
use baste.Keyboards.Customer.{customer_main_reply_keyboard}
use baste.Chat.{World, Message, H, ◌>>=◌, ◌>>◌, done, fail, call, attempt, answer, clear, get_data}
use baste.Chat.Replies.{
  Reply, invalid_discount_code, discount_applied, too_many_pending, receipt_delayed, receipt_taken,
}
use baste.Customer.{has_support, second_part}

-- The column holds hundredths.
unfoldable pub set_price : ℤ → Order → Order
set_price price o = record o { package_price = price *ℤ pos 100 }

unfoldable pub order_of : Option ℕ → Db → Option (ℕ × Order)
order_of none s = none
order_of (some order_id) s = elim (find s.orders order_id) [
  | none ↦ none
  | some o ↦ some (order_id, o)
]

unfoldable pub use_discount : Message → ℕ × Order → ℕ × DiscountCode → H Unit
unfolding apply_discount set_price
use_discount message (order_id, order) (discount_id, row) = do
  let new_price = apply_discount order.package_price row.percent
  call (execute (update_order order_id (set_price new_price)))
  call (increment_usage discount_id)
  answer message (discount_applied new_price) none

unfoldable pub after_validation : Message → Option (ℕ × Order) → Result (ℕ × DiscountCode) → H Unit
unfolding use_discount
after_validation message none (ok row) = fail type_error
after_validation message (some order) (ok row) = use_discount message order row
after_validation message order (err discount_not_found) = answer message invalid_discount_code none
after_validation message order (err discount_expired) = answer message invalid_discount_code none
after_validation message order (err discount_exhausted) = answer message invalid_discount_code none
after_validation message order (err e) = fail e

-- The code is `text.split(maxsplit=1)[1].strip()`, which has to be there.
unfoldable pub apply_discount_code : World → Message → Text → ℕ → H Unit
unfolding order_of after_validation second_part is_empty strip
apply_discount_code w message text reseller_id =
    if is_empty (second_part text) then fail index_error else do
      data_ ← get_data
      order ← call (fetch (order_of data_.order_id))
      row ← attempt (
          validate_discount_code w.strip_upper w.datetime_now reseller_id
            (strip (second_part text)))
      after_validation message order row

-- `submit_receipt` of an id that may be missing, as that of an order that is not there.
unfoldable pub submit_if : World → Option ℕ → Text → H (Result (Option Order))
submit_if w none receipt = done (err not_found)
submit_if w (some order_id) receipt =
    attempt (submit_receipt w.column w.max_pending order_id receipt)

unfoldable pub receipt_answer : Message → ℕ → Reply → H Unit
unfolding has_support
receipt_answer message reseller_id reply = do
  clear
  support ← call (fetch (has_support reseller_id))
  answer message reply (some (customer_main_reply_keyboard support))

unfoldable pub delay : World → Message → ℕ → ℕ → Text → H Unit
unfolding receipt_answer notify_reseller_insufficient_credit notify_super_admin_insufficient_credit
delay w message reseller_id owner code = do
  notify_reseller_insufficient_credit owner code
  notify_super_admin_insufficient_credit w owner code
  receipt_answer message reseller_id receipt_delayed

unfoldable pub after_receipt : World → Message → ℕ → Result (Option Order) → H Unit
unfolding receipt_answer delay has_support
after_receipt w message reseller_id (ok none) = do
  clear
  call (fetch (has_support reseller_id))
  fail type_error
after_receipt w message reseller_id (ok (some order)) =
    receipt_answer message reseller_id (receipt_taken order.order_code)
after_receipt w message reseller_id (err (pending_order_limit count)) =
    answer message (too_many_pending count) none
after_receipt w message reseller_id (err (order_insufficient_credit order_id owner code)) =
    delay w message reseller_id owner code
after_receipt w message reseller_id (err e) = fail e

unfoldable pub receive_receipt : World → Message → Text → ℕ → H Unit
unfolding submit_if after_receipt
receive_receipt w message photo reseller_id = do
  data_ ← get_data
  order ← submit_if w data_.order_id photo
  after_receipt w message reseller_id order
