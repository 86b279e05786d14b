-- ===== src/Orders.antt =====
-- services/order_service.py: the receipt of an order, its confirmation and its activation; how it is
-- made stands in Creation.
pub mod Creation
pub mod Insert
pub mod TestMode
pub mod Receipt
pub mod Flow
pub mod Pending
pub mod Caught
pub mod Payment
pub mod Race
use baste.Prelude.{
  ℕ, ◌+◌, ◌*◌, ◌<◌, Bool, true, false, ◌&&◌, not, Option, none, some, List, leb, ltb, ◌==◌,
  if◌then◌else◌, is_some, map_option,
}
use baste.Prelude.Int.{ℤ, pos, ◌-ℤ◌, ◌*ℤ◌, ltb_ℤ}
use baste.Text.{Text, text_eq}
use baste.Money.{DecimalColumn}
use baste.Table.{find, update, insert, select, select_one, count_where}
use baste.Schema.{Db, Order, OrderStatus, OrderType, package_order, Customer, Reseller}
use baste.Exec.{
  M, Result, ok, err, Error, insufficient_credit, order_insufficient_credit, pending_order_limit,
  customer_blacklisted, insufficient_balance, not_found, runtime_error, type_error, integrity_error,
  pure, fetch, execute, or_raise, raise_if, transaction, ◌>>=◌, ◌>>◌,
}
use baste.Wallet.{deduct_commission_in_tx}
use baste.Blacklist.{is_blacklisted}
use baste.OrderCode.{Moment, Draw, generate_order_code}
unfoldable pub use baste.Orders.Creation.*

unfoldable pub receive : OrderStatus → Text → ℤ → Bool → Order → Order
receive status receipt commission is_test o = record o {
  status = status;
  receipt_image = some receipt;
  commission_amount = commission;
  is_test_order = is_test;
}

-- `except InsufficientCreditError`: true if it was caught; what was written stays.
unfoldable pub caught : Result Unit × Db → Result Bool × Db
caught (ok _, s) = (ok false, s)
caught (err insufficient_credit, s) = (ok true, s)
caught (err e, s) = (err e, s)

abbrev pub catch_insufficient : M Unit → M Bool
catch_insufficient m s = caught (m s)

unfoldable pub in_test_mode : Reseller → Bool
in_test_mode r = r.test_mode_enabled && ltb r.test_mode_orders_used r.test_mode_order_limit

-- The transaction of `submit_receipt`: true if the credit did not suffice. A commission is in
-- millionths, and `column.store` is what its column keeps.
unfoldable pub take_receipt : DecimalColumn → ℕ → Text → Order → Reseller → M Bool
unfolding in_test_mode
take_receipt column order_id receipt order reseller = transaction (do
  let commission = order.package_price *ℤ reseller.commission_percent
  if in_test_mode reseller
      then (do
        execute (
            update_order order_id
              (receive OrderStatus.awaiting_receipt_review receipt (pos 0) true))
        pure false)
      else do
        insufficient ←
            catch_insufficient
              (deduct_commission_in_tx column order.reseller_id commission order.order_code)
        execute (
            update_order order_id (
              receive
                (if insufficient
                  then OrderStatus.failed_insufficient_credit
                  else OrderStatus.awaiting_receipt_review)
                receipt (column.store commission) false))
        pure insufficient)

-- `max_pending` is `Config.MAX_PENDING_ORDERS_PER_CUSTOMER`.
unfoldable pub check_receipt : ℕ → ℕ → M (Order × Reseller)
check_receipt max_pending order_id = do
  order ← or_raise (← fetch (λ s. find s.orders order_id)) not_found
  pending_count ← count_pending_orders order.customer_id
  raise_if (leb max_pending pending_count) (pending_order_limit pending_count)
  reseller ← or_raise (← fetch (λ s. find s.resellers order.reseller_id)) type_error
  pure (order, reseller)

unfoldable pub accept_receipt : DecimalColumn → ℕ → Text → Order × Reseller → M (Option Order)
accept_receipt column order_id receipt (order, reseller) = do
  insufficient ← take_receipt column order_id receipt order reseller
  raise_if insufficient (order_insufficient_credit order_id order.reseller_id order.order_code)
  fetch (λ s. find s.orders order_id)

-- The tests, which stand outside the transaction, and what follows them.
unfoldable pub submit_receipt : DecimalColumn → ℕ → ℕ → Text → M (Option Order)
submit_receipt column max_pending order_id receipt = do
  checked ← check_receipt max_pending order_id
  accept_receipt column order_id receipt checked

-- MySQL runs the assignments of a single-table UPDATE from left to right, so the CASE reads the
-- counter that the first assignment has raised.
unfoldable pub count_test_order : Reseller → Reseller
count_test_order r =
    let used = r.test_mode_orders_used + 1 in
    record r {
      test_mode_orders_used = used;
      test_mode_enabled =
          if leb r.test_mode_order_limit (used + 1) then false else r.test_mode_enabled;
    }

unfoldable pub is_test : Option Order → Bool
is_test none = false
is_test (some o) = o.is_test_order

unfoldable pub increment_test_counter : ℕ → ℕ → M Unit
unfolding is_test
increment_test_counter reseller_id order_id = do
  order ← fetch (λ s. find s.orders order_id)
  if is_test order
      then execute (λ s. record s { resellers = update s.resellers reseller_id count_test_order })
      else pure tt

unfoldable pub confirm_order : ℕ → ℕ → M Unit
confirm_order now order_id = execute (
    update_order order_id
      (λ o. record o { status = OrderStatus.confirmed; confirmed_at = some now }))

unfoldable pub activate_order : ℕ → ℕ → M (Option Order)
activate_order now order_id = do
  row ← fetch (λ s. find s.orders order_id)
  execute (
      update_order order_id
        (λ o. record o { status = OrderStatus.activated; activated_at = some now }))
  order ← or_raise row type_error
  increment_test_counter order.reseller_id order_id
  fetch (λ s. find s.orders order_id)

unfoldable pub reject_order : ℕ → M Unit
reject_order order_id =
    execute (update_order order_id (λ o. record o { status = OrderStatus.rejected }))

unfoldable pub is_confirmed : OrderStatus → Bool
is_confirmed OrderStatus.confirmed = true
is_confirmed _ = false

unfoldable pub before : Option ℕ → ℕ → Bool
before none limit = false
before (some t) limit = ltb t limit

-- `confirmed_at < NOW() - INTERVAL hours HOUR`, with the hours on the other side.
unfoldable pub is_overdue : ℕ → ℕ → ℕ → Order → Bool
unfolding is_confirmed before
is_overdue now hours _ o =
    is_confirmed o.status && before (map_option (λ t. t + hours * 3600) o.confirmed_at) now

unfoldable pub find_orders_pending_activation_alert : ℕ → ℕ → M (List (ℕ × Order))
find_orders_pending_activation_alert now hours = fetch (λ s. select (is_overdue now hours) s.orders)
