-- ===== src/Orders/Receipt.antt =====
-- services/order_service.py, submit_receipt: the order's status and the commission change together.
use baste.Prelude.{
  ℕ, ◌<◌, ◌≤◌, ◌≡◌, ◌⊎◌, refl, Bool, true, false, Option, none, some, arith, inl, inr, Bool-cases,
  Option-cases, if◌then◌else◌, leb,
}
use baste.Prelude.Int.{ℤ, pos, ◌*ℤ◌}
use baste.Text.{Text}
use baste.Money.{DecimalColumn}
use baste.Table.{find}
use baste.Table.Laws.{find-update}
use baste.Schema.{Db, Order, OrderStatus, Reseller}
use baste.Exec.{Result, ok, err, insufficient_credit, order_insufficient_credit}
use baste.Wallet.{deduct_commission_in_tx}
use baste.Wallet.Limit.{deducted, deduct-cases, orders-deducted}
use baste.Orders.{
  check_receipt, accept_receipt, submit_receipt, take_receipt, receive, caught, in_test_mode,
  update_order, pending_orders, count_pending_orders,
}

find-update_order :
    (s : Db) (i : ℕ) (f : Order → Order) (o : Order)
    → find s.orders i ≡ some o
    → find (update_order i f s).orders i ≡ some (f o)
unfolding update_order
find-update_order s i f o e = ground (arith, find-update s.orders i i f)

-- The commission, in millionths.
abbrev pub charge_of : Order → Reseller → ℤ
charge_of o r = o.package_price *ℤ r.commission_percent

module _ (column : DecimalColumn) (max_pending i : ℕ) (receipt : Text) (s : Db) where
  -- The order after the transaction.
  pub received : Order → Reseller → OrderStatus → Order
  received o r status =
      receive status receipt
        (if in_test_mode r then pos 0 else column.store (o.package_price *ℤ r.commission_percent))
        (in_test_mode r) o

  pub take_test :
      (o : Order) (r : Reseller)
      → in_test_mode r ≡ true
      → take_receipt column i receipt o r s ≡ (
        ok false,
        update_order i (receive OrderStatus.awaiting_receipt_review receipt (pos 0) true) s,
      )
  unfolding take_receipt
  take_test o r test = rw test

  pub take_paid :
      (o : Order) (r : Reseller)
      → in_test_mode r ≡ false
      → deduct_commission_in_tx column o.reseller_id (charge_of o r) o.order_code s
        ≡ (ok tt, deducted column o.reseller_id (charge_of o r) o.order_code s r)
      → take_receipt column i receipt o r s ≡ (
        ok false,
        update_order i
            (receive OrderStatus.awaiting_receipt_review receipt
              (column.store (charge_of o r))
              false)
            (deducted column o.reseller_id (charge_of o r) o.order_code s r),
      )
  unfolding take_receipt caught
  take_paid o r live d = rw (live, d)

  pub take_short :
      (o : Order) (r : Reseller)
      → in_test_mode r ≡ false
      → deduct_commission_in_tx column o.reseller_id (charge_of o r) o.order_code s
        ≡ (err insufficient_credit, s)
      → take_receipt column i receipt o r s ≡ (
        ok true,
        update_order i
            (receive OrderStatus.failed_insufficient_credit receipt
              (column.store (charge_of o r))
              false)
            s,
      )
  unfolding take_receipt caught
  take_short o r live d = rw (live, d)

  -- How a call that began at `s` ended.
  abbrev pub Submitted : Result (Option Order) × Db → Type 0
  Submitted (ok got, s') =
      (o : Order) × (r : Reseller) × (find s.orders i ≡ some o)
      × (find s.resellers o.reseller_id ≡ some r)
      × (pending_orders o.customer_id s < max_pending)
      × (got ≡ some (received o r OrderStatus.awaiting_receipt_review))
      × (find s'.orders i ≡ some (received o r OrderStatus.awaiting_receipt_review))
      × (s'.resellers ≡ (
          if in_test_mode r
          then s.resellers
          else (deducted column o.reseller_id (charge_of o r) o.order_code s r).resellers))
      × (s'.wallet_transactions ≡ (
          if in_test_mode r
          then s.wallet_transactions
          else (deducted column o.reseller_id (charge_of o r) o.order_code s
              r).wallet_transactions))
  Submitted (err (order_insufficient_credit _ _ _), s') =
      (o : Order) × (r : Reseller) × (find s.orders i ≡ some o)
      × (in_test_mode r ≡ false)
      × (find s'.orders i ≡ some (received o r OrderStatus.failed_insufficient_credit))
      × (s'.resellers ≡ s.resellers)
      × (s'.wallet_transactions ≡ s.wallet_transactions)
  Submitted (err _, s') =
      (s' ≡ s)
      × ((find s.orders i ≡ none)
          ⊎ ((o : Order) × (find s.orders i ≡ some o)
              × ((max_pending ≤ pending_orders o.customer_id s)
                  ⊎ (find s.resellers o.reseller_id ≡ none))))

  -- The part of the call behind its guards.
  pub submit_run :
      (o : Order) (r : Reseller) (insufficient : Bool) (s' : Db)
      → find s.orders i ≡ some o
      → leb max_pending (pending_orders o.customer_id s) ≡ false
      → find s.resellers o.reseller_id ≡ some r
      → take_receipt column i receipt o r s ≡ (ok insufficient, s')
      → submit_receipt column max_pending i receipt s ≡ (
        if insufficient
            then err (order_insufficient_credit i o.reseller_id o.order_code)
            else ok (find s'.orders i),
        s',
      )
  unfolding submit_receipt check_receipt accept_receipt count_pending_orders
  submit_run o r true s' e room f t = rw (e, room, f, t)
  submit_run o r false s' e room f t = rw (e, room, f, t)

  module _ (o : Order) (r : Reseller) (e : find s.orders i ≡ some o) where
    received_test :
        (status : OrderStatus)
        → in_test_mode r ≡ true
        → find (update_order i (receive status receipt (pos 0) true) s).orders i
          ≡ some (received o r status)
    unfolding received
    received_test status test =
        ground (arith, find-update_order s i (receive status receipt (pos 0) true) o e)

    received_live :
        (status : OrderStatus) (s' : Db)
        → s'.orders ≡ s.orders
        → in_test_mode r ≡ false
        → find
            (update_order i (receive status receipt (column.store (charge_of o r)) false) s').orders
            i
          ≡ some (received o r status)
    unfolding received
    received_live status s' same live = ground (
      arith,
      find-update_order s' i (receive status receipt (column.store (charge_of o r)) false) o
          (rw same e),
    )

    submit_test-Submitted :
        leb max_pending (pending_orders o.customer_id s) ≡ false
        → find s.resellers o.reseller_id ≡ some r
        → in_test_mode r ≡ true
        → Submitted (submit_receipt column max_pending i receipt s)
    submit_test-Submitted room f test =
        let done = received_test OrderStatus.awaiting_receipt_review test in
        rw (submit_run o r false _ e room f (take_test o r test)) (
          o,
          r,
          e,
          f,
          ground arith,
          done,
          done,
          rw test (unfold update_order in refl),
          rw test (unfold update_order in refl),
        )

    submit_live-Submitted :
        leb max_pending (pending_orders o.customer_id s) ≡ false
        → find s.resellers o.reseller_id ≡ some r
        → in_test_mode r ≡ false
        → Submitted (submit_receipt column max_pending i receipt s)
    submit_live-Submitted room f live =
        let s' = deducted column o.reseller_id (charge_of o r) o.order_code s r in
        let done =
          received_live OrderStatus.awaiting_receipt_review s'
            (orders-deducted column o.reseller_id (charge_of o r) o.order_code s r) live in
        let failed = received_live OrderStatus.failed_insufficient_credit s refl live in
        elim (deduct-cases column o.reseller_id (charge_of o r) o.order_code s r f) [
          | inl short ↦
              rw (submit_run o r true _ e room f (take_short o r live short))
                (o, r, e, live, failed, unfold update_order in refl, unfold update_order in refl)
          | inr paid ↦ rw (submit_run o r false _ e room f (take_paid o r live paid)) (
            o,
            r,
            e,
            f,
            ground arith,
            done,
            done,
            rw live (unfold update_order in refl),
            rw live (unfold update_order in refl),
          )
        ]

  -- Every call of `submit_receipt` ends in one of three ways. It returns: the order was found, the
  -- customer had room, the order is now under review with its receipt and its commission, and the
  -- wallet and its ledger are those of the deduction, or untouched in test mode. Or it raises
  -- `OrderInsufficientCreditError`: the order is marked failed, and wallet and ledger are untouched.
  -- Or it raises another exception, nothing has changed, and there was no such order, or no such
  -- reseller, or the customer had as many orders under review as the maximum.
  pub submit_receipt-Submitted : Submitted (submit_receipt column max_pending i receipt s)
  submit_receipt-Submitted = elim (Option-cases (find s.orders i)) [
    | inl missing ↦
        unfold submit_receipt check_receipt accept_receipt in rw missing (refl, inl missing)
    | inr (o, e) ↦ elim (Bool-cases (leb max_pending (pending_orders o.customer_id s))) [
      | inl full ↦
          unfold submit_receipt check_receipt accept_receipt count_pending_orders in
          rw (e, full) (refl, inr (o, e, inl (ground arith)))
      | inr room ↦ elim (Option-cases (find s.resellers o.reseller_id)) [
        | inl gone ↦
            unfold submit_receipt check_receipt accept_receipt count_pending_orders in
            rw (e, room, gone) (refl, inr (o, e, inr gone))
        | inr (r, f) ↦ elim (Bool-cases (in_test_mode r)) [
          | inl test ↦ submit_test-Submitted o r e room f test
          | inr live ↦ submit_live-Submitted o r e room f live
        ]
      ]
    ]
  ]
