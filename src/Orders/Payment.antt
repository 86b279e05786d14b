-- ===== src/Orders/Payment.antt =====
-- services/order_service.py: an order that is paid out of the customer's wallet, from the tests to the
-- answer.
use baste.Prelude.{ℕ, ◌≡◌, false, Option, some}
use baste.Prelude.Int.{◌≤ℤ◌}
use baste.Text.{Text}
use baste.Table.{find}
use baste.Schema.{Db, Order, Customer, Reseller, Package}
use baste.Exec.{ok, err, Error}
use baste.OrderCode.{generate_order_code}
use baste.Orders.{Env, create_order_paid_by_wallet, paid_order, charge_wallet, customer_blocked}
use baste.Orders.Insert.{with_order}

module _ (env : Env) (k p c : ℕ) (phone : Option Text) (s : Db) where
  abbrev pub code_for : Reseller → Text
  code_for r = generate_order_code r.order_prefix env.moment env.draw

  -- The order of the payment, and what the payment has written.
  abbrev pub order_for : Reseller → Package → Order
  order_for r q = paid_order env (code_for r) k p c phone q.sale_price

  abbrev pub paid_db : Reseller → Package → Db
  paid_db r q = with_order (order_for r q) (charge_wallet c q.sale_price s)

  abbrev pub Raises : Type 0
  Raises = (e : Error) × (create_order_paid_by_wallet env k p c phone s ≡ (err e, s))

  abbrev pub Pays : Type 0
  Pays =
      (w : Customer) × (r : Reseller) × (q : Package) × (find s.customers c ≡ some w)
      × (customer_blocked (some w) k s ≡ (ok false, s))
      × (find s.resellers k ≡ some r)
      × (find s.packages p ≡ some q)
      × (q.sale_price ≤ℤ w.wallet_balance)
      × (create_order_paid_by_wallet env k p c phone s
          ≡ (ok (s.orders.next_id, order_for r q), paid_db r q))
