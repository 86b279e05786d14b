-- ===== src/Tests/Purchases.antt =====
-- The orders and the purchases: the theorems at the small database.
use baste.Prelude.{◌<◌, true, ◌≡◌, refl, none, some, arith, List, [], ◌∷◌, keep}
use baste.Prelude.Int.{pos, ◌*ℤ◌}
use baste.Text.{text_eq}
use baste.Table.{find, update, insert, select, select_one, count_where}
use baste.Table.Keys.{IsKeyed}
use baste.Exec.{is_ok, ok}
use baste.Orders.{
  insert_order, charge_wallet, has_code, submit_receipt, pending_orders, is_awaiting_review,
}
use baste.Orders.Receipt.{Submitted, submit_receipt-Submitted}
use baste.Orders.Pending.{Capped}
use baste.Orders.Flow.{submit, confirm, reject, serve, serve-Capped}
use baste.Charge.{
  deliver_code, deliver_bulk, Delivery, in_stock, sell_each, sell_all, is_available,
  available_codes, delivery_order, update_code,
}
use baste.Charge.Stock.{Sale, view, deliver_code-Sale, deliver_code_completes}
use baste.Charge.Single.{Delivers, deliver_code-Delivers}
use baste.Prelude.{ℕ, ◌≤◌, ◌<◌, ◌+◌}
use baste.Prelude.Int.{◌≤ℤ◌}
use baste.Charge.Completes.{code_at, deliver_bulk_completes}
use baste.Charge.Bulk.{DeliversAll, deliver_bulk-DeliversAll}
use baste.Tests.Data.{column, shop, text_a, env, moment, draw, reseller_1, customer_1, package_1}
use baste.OrderCode.{generate_charge_code}

submit_receipt-Submitted_example :
    Submitted column 3 1 text_a shop (submit_receipt column 3 1 text_a shop)
submit_receipt-Submitted_example = submit_receipt-Submitted column 3 1 text_a shop

shop-Capped : Capped 1 shop
unfolding pending_orders count_where is_awaiting_review
shop-Capped = record { at_customer = λ c. ground arith }

serve-Capped_example :
    Capped 1
      (serve column 1 (submit 1 text_a ∷ reject 1 ∷ submit 2 text_a ∷ confirm 60 2 ∷ []) shop)
serve-Capped_example =
    serve-Capped column 1 (submit 1 text_a ∷ reject 1 ∷ submit 2 text_a ∷ confirm 60 2 ∷ []) shop
      shop-Capped

shop-IsKeyed : IsKeyed shop.charge_codes
shop-IsKeyed = omega arith

bought : (deliver_code env (b'B' ∷ []) 1 1 1 (pos 1000) shop).0 ≡ ok (1, text_a)
unfolding deliver_code find update select_one in_stock is_available insert_order has_code text_eq
    charge_wallet delivery_order
bought = refl

deliver_code-Delivers_example :
    Delivers env
      (b'B' ∷ [])
      1
      1
      1
      (pos 1000)
      shop
      (1, text_a)
      (deliver_code env (b'B' ∷ []) 1 1 1 (pos 1000) shop).1
deliver_code-Delivers_example =
    deliver_code-Delivers env (b'B' ∷ []) 1 1 1 (pos 1000) shop (1, text_a) shop-IsKeyed bought

deliver_code-Sale_example :
    Sale
      (pos 1000)
      (is_ok (deliver_code env (b'B' ∷ []) 1 1 1 (pos 1000) shop).0)
      (view 1 1 shop)
      (view 1 1 (deliver_code env (b'B' ∷ []) 1 1 1 (pos 1000) shop).1)
deliver_code-Sale_example = deliver_code-Sale env (b'B' ∷ []) 1 1 1 (pos 1000) shop shop-IsKeyed

in_stock_1 : 0 < available_codes 1 shop
unfolding available_codes count_where in_stock is_available
in_stock_1 = omega arith

fresh_code : select_one (has_code (b'B' ∷ [])) shop.orders ≡ none
unfolding select_one has_code text_eq
fresh_code = refl

customer_found : find shop.customers 1 ≡ some customer_1
unfolding find
customer_found = refl

reseller_found : find shop.resellers 1 ≡ some reseller_1
unfolding find
reseller_found = refl

package_found : find shop.packages 1 ≡ some package_1
unfolding find
package_found = refl

deliver_code_completes_example : is_ok (deliver_code env (b'B' ∷ []) 1 1 1 (pos 1000) shop).0 ≡ true
deliver_code_completes_example =
    deliver_code_completes env (b'B' ∷ []) 1 1 1 (pos 1000) shop customer_1 reseller_1 package_1
      customer_found (omega arith) in_stock_1 reseller_found package_found fresh_code

-- Two codes, delivered with the sequence numbers 1 and 2.
abbrev both : List Delivery
both =
    record {
      order_id = 3;
      order_code = generate_charge_code text_a (some 1) moment draw;
      code = text_a;
    }
    ∷ record {
      order_id = 4;
      order_code = generate_charge_code text_a (some 2) moment draw;
      code = text_a;
    }
    ∷ []

bought_both : (deliver_bulk (λ n. env) (some reseller_1) 1 1 1 (pos 1000) 2 shop).0 ≡ ok both
unfolding deliver_bulk sell_all sell_each generate_charge_code find select select_one in_stock
    insert_order has_code text_eq ◌*ℤ◌ keep is_available charge_wallet delivery_order update
    update_code insert
bought_both = refl

deliver_bulk-DeliversAll_example :
    DeliversAll
      (λ n. env)
      (some reseller_1)
      1
      1
      1
      (pos 1000)
      2
      shop
      both
      (deliver_bulk (λ n. env) (some reseller_1) 1 1 1 (pos 1000) 2 shop).1
deliver_bulk-DeliversAll_example =
    deliver_bulk-DeliversAll (λ n. env) (some reseller_1) 1 1 1 (pos 1000) 2 shop both shop-IsKeyed
      bought_both

both_in_stock : 2 ≤ available_codes 1 shop
unfolding available_codes count_where in_stock is_available
both_in_stock = omega arith

new_codes :
    (m : ℕ)
    → 1 ≤ m
    → m < 2 + 1
    → select_one (has_code (code_at (λ n. env) reseller_1 1 1 1 (pos 1000) m)) shop.orders ≡ none
unfolding select_one has_code text_eq generate_charge_code
new_codes m lo hi = refl

whole_price : pos 1000 *ℤ pos 2 ≤ℤ customer_1.wallet_balance
unfolding ◌*ℤ◌
whole_price = omega arith

deliver_bulk_completes_example :
    is_ok (deliver_bulk (λ n. env) (some reseller_1) 1 1 1 (pos 1000) 2 shop).0 ≡ true
deliver_bulk_completes_example =
    deliver_bulk_completes (λ n. env) reseller_1 1 1 1 (pos 1000) 2 shop customer_1 package_1
      (omega arith) reseller_found package_found customer_found whole_price both_in_stock new_codes
