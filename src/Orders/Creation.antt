-- ===== src/Orders/Creation.antt =====
-- services/order_service.py: a customer's row, and the order from its tests to its INSERT. `DB now` is
-- the database's clock, in seconds; `moment` and `draw` are what `_generate_order_code` reads.
use baste.Prelude.{
  ℕ, Bool, true, false, ◌&&◌, Option, none, some, ◌==◌, if◌then◌else◌, is_some, map_option,
}
use baste.Prelude.Int.{ℤ, pos, ◌-ℤ◌, ltb_ℤ}
use baste.Text.{Text, text_eq}
use baste.Table.{find, update, insert, select_one, count_where}
use baste.Schema.{Db, Order, OrderStatus, package_order, Customer}
use baste.Exec.{
  M, customer_blacklisted, insufficient_balance, not_found, runtime_error, type_error,
  integrity_error, pure, fetch, execute, or_raise, raise_if, transaction, ◌>>=◌, ◌>>◌,
}
use baste.Blacklist.{is_blacklisted}
use baste.OrderCode.{Moment, Draw, generate_order_code}

-- What a call reads from the clocks and from `random`.
pub record Env : Type 0 where
  pub now : ℕ
  pub moment : Moment
  pub draw : Draw

unfoldable pub has_code : Text → ℕ → Order → Bool
has_code code _ o = text_eq o.order_code code

-- INSERT INTO orders: the key of the code is unique, and the three foreign keys want their rows.
unfoldable pub insert_order : Order → M ℕ
unfolding has_code
insert_order o = do
  taken ← fetch (λ s. is_some (select_one (has_code o.order_code) s.orders))
  raise_if taken integrity_error
  or_raise (← fetch (λ s. find s.resellers o.reseller_id)) integrity_error
  or_raise (← fetch (λ s. find s.packages o.package_id)) integrity_error
  or_raise (← fetch (λ s. find s.customers o.customer_id)) integrity_error
  order_id ← fetch (λ s. s.orders.next_id)
  execute (λ s. record s { orders = insert s.orders o })
  pure order_id

unfoldable pub update_order : ℕ → (Order → Order) → Db → Db
update_order order_id f s = record s { orders = update s.orders order_id f }

unfoldable pub is_customer : ℕ → ℕ → ℕ → Customer → Bool
is_customer reseller_id user _ c = c.reseller_id == reseller_id && c.telegram_user_id == user

unfoldable pub get_or_create_customer : ℕ → ℕ → M (Option (ℕ × Customer))
unfolding is_customer
get_or_create_customer reseller_id user = do
  row ← fetch (λ s. select_one (is_customer reseller_id user) s.customers)
  if is_some row then pure row else do
    customer_id ← fetch (λ s. s.customers.next_id)
    execute (λ s. record s {
      customers =
          insert s.customers
            (record { reseller_id = reseller_id; telegram_user_id = user; wallet_balance = pos 0 });
    })
    fetch (λ s. map_option (λ c. (customer_id, c)) (find s.customers customer_id))

unfoldable pub is_awaiting_review : OrderStatus → Bool
is_awaiting_review OrderStatus.awaiting_receipt_review = true
is_awaiting_review OrderStatus.awaiting_payment = false
is_awaiting_review OrderStatus.confirmed = false
is_awaiting_review OrderStatus.activated = false
is_awaiting_review OrderStatus.rejected = false
is_awaiting_review OrderStatus.refund_pending = false
is_awaiting_review OrderStatus.refunded = false
is_awaiting_review OrderStatus.failed_insufficient_credit = false

unfoldable pub is_pending_of : ℕ → ℕ → Order → Bool
unfolding is_awaiting_review
is_pending_of customer_id _ o = o.customer_id == customer_id && is_awaiting_review o.status

unfoldable pub pending_orders : ℕ → Db → ℕ
unfolding is_pending_of
pending_orders customer_id s = count_where (is_pending_of customer_id) s.orders

unfoldable pub count_pending_orders : ℕ → M ℕ
count_pending_orders customer_id = fetch (pending_orders customer_id)

-- `customer_row and await is_blacklisted(…)`
unfoldable pub customer_blocked : Option Customer → ℕ → M Bool
unfolding is_blacklisted
customer_blocked none reseller_id = pure false
customer_blocked (some c) reseller_id = is_blacklisted c.telegram_user_id (some reseller_id)

unfoldable pub created_order : Env → Text → ℕ → ℕ → ℕ → Option Text → ℤ → Order
created_order env code reseller_id package_id customer_id phone price = record {
  order_code = code;
  reseller_id = reseller_id;
  package_id = package_id;
  customer_id = customer_id;
  status = OrderStatus.awaiting_payment;
  order_type = package_order;
  receipt_image = none;
  phone_number = phone;
  package_price = price;
  commission_amount = pos 0;
  is_test_order = false;
  paid_from_wallet = false;
  created_at = env.now;
  confirmed_at = none;
  activated_at = none;
  delivered_charge_code = none;
}

unfoldable pub create_order : Env → ℕ → ℕ → ℕ → Option Text → M (ℕ × Order)
unfolding customer_blocked
create_order env reseller_id package_id customer_id phone = do
  customer_row ← fetch (λ s. find s.customers customer_id)
  blocked ← customer_blocked customer_row reseller_id
  raise_if blocked customer_blacklisted
  reseller_row ← fetch (λ s. find s.resellers reseller_id)
  package_row ← or_raise (← fetch (λ s. find s.packages package_id)) not_found
  reseller ← or_raise reseller_row type_error
  let code = generate_order_code reseller.order_prefix env.moment env.draw
  insert_order
      (created_order env code reseller_id package_id customer_id phone package_row.sale_price)
  or_raise (← fetch (λ s. select_one (has_code code) s.orders)) runtime_error

unfoldable pub charge_wallet : ℕ → ℤ → Db → Db
charge_wallet customer_id price s = record s {
  customers =
      update s.customers customer_id (λ c. record c { wallet_balance = c.wallet_balance -ℤ price });
}

unfoldable pub paid_order : Env → Text → ℕ → ℕ → ℕ → Option Text → ℤ → Order
paid_order env code reseller_id package_id customer_id phone price =
    record (created_order env code reseller_id package_id customer_id phone price) {
      status = OrderStatus.confirmed;
      paid_from_wallet = true;
      confirmed_at = some env.now;
    }

-- The transaction of `create_order_paid_by_wallet`: the balance is read again under the lock.
unfoldable pub pay_order : ℕ → ℤ → Order → M Unit
pay_order customer_id price order = transaction (do
  row ← or_raise (← fetch (λ s. find s.customers customer_id)) type_error
  raise_if (ltb_ℤ row.wallet_balance price) insufficient_balance
  execute (charge_wallet customer_id price)
  insert_order order
  pure tt)

unfoldable pub create_order_paid_by_wallet : Env → ℕ → ℕ → ℕ → Option Text → M (ℕ × Order)
unfolding customer_blocked
create_order_paid_by_wallet env reseller_id package_id customer_id phone = do
  customer_row ← fetch (λ s. find s.customers customer_id)
  blocked ← customer_blocked customer_row reseller_id
  raise_if blocked customer_blacklisted
  reseller_row ← fetch (λ s. find s.resellers reseller_id)
  package_row ← or_raise (← fetch (λ s. find s.packages package_id)) not_found
  customer ← or_raise customer_row type_error
  raise_if (ltb_ℤ customer.wallet_balance package_row.sale_price) insufficient_balance
  reseller ← or_raise reseller_row type_error
  let code = generate_order_code reseller.order_prefix env.moment env.draw
  pay_order customer_id package_row.sale_price
      (paid_order env code reseller_id package_id customer_id phone package_row.sale_price)
  or_raise (← fetch (λ s. select_one (has_code code) s.orders)) runtime_error
