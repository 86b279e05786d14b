-- ===== src/Charge.antt =====
-- services/charge_service.py: the stock of charge codes, and the purchases that deliver them.
pub mod Single
pub mod Bulk
pub mod Completes
pub mod Each
pub mod Stock
pub mod Lines
pub mod Sold
use baste.Prelude.{
  ℕ, zero, suc, ◌+◌, Bool, true, false, ◌&&◌, ◌||◌, not, Option, none, some, List, [], ◌∷◌, leb,
  ltb, ◌==◌, if◌then◌else◌, is_some, length, take,
}
use baste.Prelude.Int.{ℤ, pos, ◌*ℤ◌, ltb_ℤ}
use baste.Text.{Text, text_eq}
use baste.Text.Lines.{splitlines, strip, is_empty}
use baste.Table.{find, update, insert, select, select_one, count_where, delete_where}
use baste.Schema.{Db, Order, OrderStatus, OrderType, charge_order, ChargeCode, CodeStatus, Reseller}
use baste.Exec.{
  raise, M, Error, customer_blacklisted, insufficient_balance, out_of_stock, not_found,
  bad_quantity, runtime_error, type_error, integrity_error, pure, fetch, execute, or_raise,
  raise_if, transaction, ◌>>=◌, ◌>>◌,
}
use baste.Orders.{Env, customer_blocked, insert_order, charge_wallet, has_code}
use baste.OrderCode.{Moment, Draw, generate_charge_code}

-- `x in seen`
unfoldable pub mem_text : Text → List Text → Bool
mem_text x [] = false
mem_text x (y ∷ ys) = text_eq x y || mem_text x ys

-- The loop over the lines: `seen` holds what is in `cleaned` already.
unfoldable pub clean_lines : List Text → List Text → List Text
unfolding mem_text strip is_empty
clean_lines seen [] = []
clean_lines seen (raw ∷ rest) =
    let line = strip raw in
    let skip = clean_lines seen rest in
    let add = line ∷ clean_lines (line ∷ seen) rest in
    if is_empty line || mem_text line seen then skip else add

unfoldable pub new_code : ℕ → ℕ → Text → ChargeCode
new_code reseller_id package_id code = record {
  reseller_id = reseller_id;
  package_id = package_id;
  code = code;
  status = CodeStatus.available;
  sold_at = none;
  sold_to_customer_id = none;
  sold_order_id = none;
}

-- INSERT INTO charge_codes: its foreign keys want the reseller and the package.
unfoldable pub insert_code : ChargeCode → M Unit
insert_code c = do
  or_raise (← fetch (λ s. find s.resellers c.reseller_id)) integrity_error
  or_raise (← fetch (λ s. find s.packages c.package_id)) integrity_error
  execute (λ s. record s { charge_codes = insert s.charge_codes c })

unfoldable pub insert_codes : ℕ → ℕ → List Text → M Unit
unfolding new_code
insert_codes reseller_id package_id [] = pure tt
insert_codes reseller_id package_id (code ∷ rest) = do
  insert_code (new_code reseller_id package_id code)
  insert_codes reseller_id package_id rest

unfoldable pub add_charge_codes : ℕ → ℕ → Text → M ℕ
unfolding clean_lines splitlines
add_charge_codes reseller_id package_id raw_text = do
  let cleaned = clean_lines [] (splitlines raw_text)
  insert_codes reseller_id package_id cleaned
  pure (length cleaned)

unfoldable pub is_available : CodeStatus → Bool
is_available CodeStatus.available = true
is_available CodeStatus.sold = false

unfoldable pub in_stock : ℕ → ℕ → ChargeCode → Bool
in_stock package_id _ c = c.package_id == package_id && is_available c.status

unfoldable pub available_codes : ℕ → Db → ℕ
available_codes package_id s = count_where (in_stock package_id) s.charge_codes

unfoldable pub count_available_codes : ℕ → M ℕ
count_available_codes package_id = fetch (available_codes package_id)

unfoldable pub list_available_codes : ℕ → ℕ → M (List (ℕ × ChargeCode))
list_available_codes package_id limit =
    fetch (λ s. take limit (select (in_stock package_id) s.charge_codes))

unfoldable pub delete_available_code : ℕ → M Unit
delete_available_code code_id = execute (λ s. record s {
  charge_codes = delete_where (λ k c. k == code_id && is_available c.status) s.charge_codes;
})

unfoldable pub clear_available_codes : ℕ → M ℕ
clear_available_codes package_id = do
  count ← fetch (available_codes package_id)
  execute (λ s. record s { charge_codes = delete_where (in_stock package_id) s.charge_codes })
  pure count

unfoldable pub delivery_order : Env → Text → ℕ → ℕ → ℕ → ℤ → Text → Order
delivery_order env code reseller_id package_id customer_id price value = record {
  order_code = code;
  reseller_id = reseller_id;
  package_id = package_id;
  customer_id = customer_id;
  status = OrderStatus.activated;
  order_type = charge_order;
  receipt_image = none;
  phone_number = none;
  package_price = price;
  commission_amount = pos 0;
  is_test_order = false;
  paid_from_wallet = true;
  created_at = env.now;
  confirmed_at = some env.now;
  activated_at = some env.now;
  delivered_charge_code = some value;
}

unfoldable pub update_code : ℕ → (ChargeCode → ChargeCode) → Db → Db
update_code code_id f s = record s { charge_codes = update s.charge_codes code_id f }

unfoldable pub sell_to : ℕ → ℕ → ChargeCode → ChargeCode
sell_to now customer_id c = record c {
  status = CodeStatus.sold;
  sold_at = some now;
  sold_to_customer_id = some customer_id;
}

-- The transaction of `purchase_charge`.
unfoldable pub deliver_code : Env → Text → ℕ → ℕ → ℕ → ℤ → M (ℕ × Text)
deliver_code env code reseller_id package_id customer_id price = transaction (do
  row ← or_raise (← fetch (λ s. find s.customers customer_id)) type_error
  raise_if (ltb_ℤ row.wallet_balance price) insufficient_balance
  code_row ←
      or_raise (← fetch (λ s. select_one (in_stock package_id) s.charge_codes)) (out_of_stock none)
  execute (charge_wallet customer_id price)
  insert_order (delivery_order env code reseller_id package_id customer_id price code_row.1.code)
  execute (update_code code_row.0 (sell_to env.now customer_id))
  pure (code_row.0, code_row.1.code))

unfoldable pub purchase_charge : Env → ℕ → ℕ → ℕ → M ((ℕ × Order) × Text)
purchase_charge env reseller_id package_id customer_id = do
  customer_row ← fetch (λ s. find s.customers customer_id)
  blocked ← customer_blocked customer_row reseller_id
  raise_if blocked customer_blacklisted
  reseller_row ← fetch (λ s. find s.resellers reseller_id)
  package_row ← or_raise (← fetch (λ s. find s.packages package_id)) not_found
  reseller ← or_raise reseller_row type_error
  let code = generate_charge_code reseller.order_prefix none env.moment env.draw
  delivered ← deliver_code env code reseller_id package_id customer_id package_row.sale_price
  order ← or_raise (← fetch (λ s. select_one (has_code code) s.orders)) runtime_error
  execute (update_code delivered.0 (λ c. record c { sold_order_id = some order.0 }))
  pure (order, delivered.1)

pub record Delivery : Type 0 where
  pub order_id : ℕ
  pub order_code : Text
  pub code : Text

-- The loop of a bulk purchase, over the rows that the query returned; `env n` is what the n-th
-- round reads.
unfoldable pub sell_each :
    (ℕ → Env) → Text → ℕ → ℕ → ℕ → ℤ → ℕ → List (ℕ × ChargeCode) → M (List Delivery)
sell_each env prefix reseller_id package_id customer_id price sequence [] = pure []
sell_each env prefix reseller_id package_id customer_id price sequence ((code_id, c) ∷ rest) = do
  let now = env sequence
  let code = generate_charge_code prefix (some sequence) now.moment now.draw
  order_id ← insert_order (delivery_order now code reseller_id package_id customer_id price c.code)
  execute (
      update_code code_id
        (λ c. record (sell_to now.now customer_id c) { sold_order_id = some order_id }))
  more ← sell_each env prefix reseller_id package_id customer_id price (suc sequence) rest
  pure (record { order_id = order_id; order_code = code; code = c.code } ∷ more)

-- The loop with `reseller["order_prefix"]`, which its rounds read: without a row for the reseller the
-- first of them raises.
unfoldable pub sell_all :
    (ℕ → Env) → Option Reseller → ℕ → ℕ → ℕ → ℤ → List (ℕ × ChargeCode) → M (List Delivery)
unfolding sell_each
sell_all env none reseller_id package_id customer_id price [] = pure []
sell_all env none reseller_id package_id customer_id price (_ ∷ _) = raise type_error
sell_all env (some reseller) reseller_id package_id customer_id price rows =
    sell_each env reseller.order_prefix reseller_id package_id customer_id price 1 rows

-- The transaction of `purchase_charge_bulk`.
unfoldable pub deliver_bulk : (ℕ → Env) → Option Reseller → ℕ → ℕ → ℕ → ℤ → ℕ → M (List Delivery)
deliver_bulk env reseller_row reseller_id package_id customer_id price quantity = transaction (do
  row ← or_raise (← fetch (λ s. find s.customers customer_id)) type_error
  raise_if (ltb_ℤ row.wallet_balance (price *ℤ pos quantity)) insufficient_balance
  rows ← fetch (λ s. take quantity (select (in_stock package_id) s.charge_codes))
  raise_if (ltb (length rows) quantity) (out_of_stock (some (length rows)))
  execute (charge_wallet customer_id (price *ℤ pos quantity))
  sell_all env reseller_row reseller_id package_id customer_id price rows)

pub record BulkDelivery : Type 0 where
  pub orders : List Delivery
  pub total_price : ℤ
  pub unit_price : ℤ
  pub quantity : ℕ

unfoldable pub purchase_charge_bulk : (ℕ → Env) → ℕ → ℕ → ℕ → ℕ → M BulkDelivery
purchase_charge_bulk env reseller_id package_id customer_id quantity = do
  raise_if (ltb quantity 1) bad_quantity
  customer_row ← fetch (λ s. find s.customers customer_id)
  blocked ← customer_blocked customer_row reseller_id
  raise_if blocked customer_blacklisted
  reseller_row ← fetch (λ s. find s.resellers reseller_id)
  package_row ← or_raise (← fetch (λ s. find s.packages package_id)) not_found
  let price = package_row.sale_price
  delivered ← deliver_bulk env reseller_row reseller_id package_id customer_id price quantity
  pure (record {
    orders = delivered;
    total_price = price *ℤ pos quantity;
    unit_price = price;
    quantity = quantity;
  })
