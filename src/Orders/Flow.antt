-- ===== src/Orders/Flow.antt =====
-- services/order_service.py as a whole: any sequence of calls, one after the other.
use baste.Prelude.{
  ℕ, ◌≡◌, refl, true, false, Option, some, inl, inr, Bool-cases, Option-cases, leb, List, [], ◌∷◌,
}
use baste.Text.{Text}
use baste.Money.{DecimalColumn}
use baste.Table.{find}
use baste.Schema.{Db, Order, Reseller}
use baste.Wallet.Limit.{deduct-cases, orders-deducted}
use baste.Orders.{
  check_receipt, accept_receipt, Env, submit_receipt, in_test_mode, pending_orders,
  count_pending_orders, confirm_order, reject_order, activate_order, create_order,
  create_order_paid_by_wallet,
}
use baste.Orders.Receipt.{charge_of, take_test, take_paid, take_short, submit_run}
use baste.Orders.Pending.{
  Capped, Capped-receive, create_order-Capped, create_order_paid_by_wallet-Capped,
  confirm_order-Capped, reject_order-Capped, activate_order-Capped,
}

module _ (column : DecimalColumn) (limit i : ℕ) (receipt : Text) (s : Db) (h : Capped limit s) where
  received-Capped :
      (o : Order) (r : Reseller)
      → find s.orders i ≡ some o
      → leb limit (pending_orders o.customer_id s) ≡ false
      → find s.resellers o.reseller_id ≡ some r
      → Capped limit (submit_receipt column limit i receipt s).1
  received-Capped o r e room f = elim (Bool-cases (in_test_mode r)) [
    | inl test ↦
        rw
          (submit_run column limit i receipt s o r false _ e room f
            (take_test column limit i receipt s o r test))
          (Capped-receive limit i _ receipt _ _ s s o refl e room h)
    | inr live ↦ elim (deduct-cases column o.reseller_id (charge_of o r) o.order_code s r f) [
      | inl short ↦
          rw
            (submit_run column limit i receipt s o r true _ e room f
              (take_short column limit i receipt s o r live short))
            (Capped-receive limit i _ receipt _ _ s s o refl e room h)
      | inr paid ↦
          rw
            (submit_run column limit i receipt s o r false _ e room f
              (take_paid column limit i receipt s o r live paid))
            (Capped-receive limit i _ receipt _ _ s _ o
              (orders-deducted column o.reseller_id (charge_of o r) o.order_code s r) e room h)
    ]
  ]

  pub submit_receipt-Capped : Capped limit (submit_receipt column limit i receipt s).1
  submit_receipt-Capped = elim (Option-cases (find s.orders i)) [
    | inl missing ↦ unfold submit_receipt check_receipt accept_receipt in rw missing h
    | inr (o, e) ↦ elim (Bool-cases (leb limit (pending_orders o.customer_id s))) [
      | inl full ↦
          unfold submit_receipt check_receipt accept_receipt count_pending_orders in rw (e, full) h
      | inr room ↦ elim (Option-cases (find s.resellers o.reseller_id)) [
        | inl gone ↦
            unfold submit_receipt check_receipt accept_receipt count_pending_orders in
            rw (e, room, gone) h
        | inr (r, f) ↦ received-Capped o r e room f
      ]
    ]
  ]

-- A call of the service, with its arguments and what it read from the clocks.
pub data Request : Type 0 where
  create : Env → ℕ → ℕ → ℕ → Option Text → Request
  pay_by_wallet : Env → ℕ → ℕ → ℕ → Option Text → Request
  submit : ℕ → Text → Request
  confirm : ℕ → ℕ → Request
  activate : ℕ → ℕ → Request
  reject : ℕ → Request

module _ (column : DecimalColumn) (limit : ℕ) where
  -- The database after one call, however it ended.
  pub after : Request → Db → Db
  after (create env k p c phone) s = (create_order env k p c phone s).1
  after (pay_by_wallet env k p c phone) s = (create_order_paid_by_wallet env k p c phone s).1
  after (submit i receipt) s = (submit_receipt column limit i receipt s).1
  after (confirm now i) s = (confirm_order now i s).1
  after (activate now i) s = (activate_order now i s).1
  after (reject i) s = (reject_order i s).1

  pub serve : List Request → Db → Db
  serve [] s = s
  serve (q ∷ rest) s = serve rest (after q s)

  after-Capped : (q : Request) (s : Db) → Capped limit s → Capped limit (after q s)
  unfolding after
  after-Capped (create env k p c phone) s h = (create_order-Capped limit env k p c phone).at s h
  after-Capped (pay_by_wallet env k p c phone) s h =
      (create_order_paid_by_wallet-Capped limit env k p c phone).at s h
  after-Capped (submit i receipt) s h = submit_receipt-Capped column limit i receipt s h
  after-Capped (confirm now i) s h = (confirm_order-Capped limit now i).at s h
  after-Capped (activate now i) s h = (activate_order-Capped limit now i).at s h
  after-Capped (reject i) s h = (reject_order-Capped limit i).at s h

  -- From a database where no customer has more orders under review than the configured maximum, no
  -- sequence of service calls, each run to its end before the next, leads to one where some customer
  -- has more.
  pub serve-Capped :
      (requests : List Request) (s : Db) → Capped limit s → Capped limit (serve requests s)
  unfolding serve
  serve-Capped [] s h = h
  serve-Capped (q ∷ rest) s h = serve-Capped rest (after q s) (after-Capped q s h)
