-- ===== src/Orders/Race.antt =====
-- services/order_service.py, submit_receipt: it counts the orders under review before its transaction,
-- and the transaction does not count again.
use baste.Prelude.{
  ◌∙◌, ℕ, ◌+◌, ◌≡◌, refl, Bool, true, false, some, arith, inl, inr, Bool-cases, Option-cases, ◌==◌,
  leb,
}
use baste.Prelude.Int.{ℤ, pos}
use baste.Text.{Text}
use baste.Money.{DecimalColumn}
use baste.Table.{find}
use baste.Table.Laws.{find-update, count-update}
use baste.Schema.{Db, Order, OrderStatus, Reseller}
use baste.Exec.{is_ok, ok}
use baste.Wallet.{deduct_commission_in_tx}
use baste.Wallet.Limit.{deducted, deduct-cases, orders-deducted}
use baste.Orders.{
  check_receipt, accept_receipt, take_receipt, receive, caught, in_test_mode, update_order,
  pending_orders, count_pending_orders, is_pending_of, is_awaiting_review,
}
use baste.Orders.Receipt.{charge_of, take_test, take_short}

-- A database with the orders of `s`, and then the order under review.
abbrev Taken : ℕ → Text → Db → Db → Type 0
Taken i receipt s s' =
    (commission : ℤ) × (test : Bool) × (s0 : Db) × (s0.orders ≡ s.orders)
    × (s' ≡ update_order i (receive OrderStatus.awaiting_receipt_review receipt commission test) s0)

module _ (column : DecimalColumn) (i : ℕ) (receipt : Text) (o : Order) (r : Reseller) (s : Db) where
  -- What follows the tests puts the order under review if it returns, whatever the tests read.
  accept_receipt-Taken :
      is_ok (accept_receipt column i receipt (o, r) s).0 ≡ true
      → Taken i receipt s (accept_receipt column i receipt (o, r) s).1
  accept_receipt-Taken = elim (Bool-cases (in_test_mode r)) [
    | inl test ↦
        unfold accept_receipt in
        rw (take_test column 0 i receipt s o r test) (λ h. (pos 0, true, s, refl, refl))
    | inr live ↦ elim (Option-cases (find s.resellers o.reseller_id)) [
      | inl missing ↦
          unfold accept_receipt take_receipt deduct_commission_in_tx caught is_ok in
          rw (live, missing) (λ h. ground arith)
      | inr (q, e) ↦ elim (deduct-cases column o.reseller_id (charge_of o r) o.order_code s q e) [
        | inl short ↦
            unfold accept_receipt is_ok in
            rw (take_short column 0 i receipt s o r live short) (λ h. ground arith)
        | inr paid ↦
            unfold accept_receipt take_receipt caught in
            rw (live, paid)
              (λ h. (
                column.store (charge_of o r),
                false,
                deducted column o.reseller_id (charge_of o r) o.order_code s q,
                orders-deducted column o.reseller_id (charge_of o r) o.order_code s q,
                refl,
              ))
      ]
    ]
  ]

-- It counts one order more of that customer, and leaves the other orders alone.
pending-Taken :
    (i c : ℕ) (receipt : Text) (o : Order) (s s' : Db)
    → find s.orders i ≡ some o
    → o.customer_id ≡ c
    → is_awaiting_review o.status ≡ false
    → Taken i receipt s s'
    → pending_orders c s' ≡ pending_orders c s + 1
unfolding pending_orders update_order is_pending_of receive is_awaiting_review
pending-Taken i c receipt o s s' e own settled (commission, test, s0, same, done) =
    let f = receive OrderStatus.awaiting_receipt_review receipt commission test in
    rw (done, same) (ground (arith, count-update (is_pending_of c) s.orders i f o e, own, settled))

find-Taken :
    (i j : ℕ) (receipt : Text) (s s' : Db)
    → (i == j) ≡ false
    → Taken i receipt s s'
    → find s'.orders j ≡ find s.orders j
unfolding update_order
find-Taken i j receipt s s' other (commission, test, s0, same, done) =
    let f = receive OrderStatus.awaiting_receipt_review receipt commission test in
    rw (done, same) (ground (arith, find-update s.orders i j f, other))

-- Two receipts of one customer who has one order less under review than the maximum, for two orders
-- that are not under review, of resellers that are there: if both tests run before either transaction
-- does, both pass, and if what follows them returns both times, the customer has one order more under
-- review than the maximum.
pub submit_receipt_race :
    (column : DecimalColumn) (max_pending i j : ℕ) (receipt other : Text) (o p : Order)
    (r q : Reseller) (s : Db)
    → find s.orders i ≡ some o
    → find s.orders j ≡ some p
    → (i == j) ≡ false
    → p.customer_id ≡ o.customer_id
    → is_awaiting_review o.status ≡ false
    → is_awaiting_review p.status ≡ false
    → find s.resellers o.reseller_id ≡ some r
    → find s.resellers p.reseller_id ≡ some q
    → pending_orders o.customer_id s + 1 ≡ max_pending
    → let first = accept_receipt column i receipt (o, r) s in
      let second = accept_receipt column j other (p, q) first.1 in
      is_ok first.0 ≡ true
      → is_ok second.0 ≡ true
      → (check_receipt max_pending i s ≡ (ok (o, r), s))
        × (check_receipt max_pending j s ≡ (ok (p, q), s))
        × (pending_orders o.customer_id second.1 ≡ max_pending + 1)
submit_receipt_race column max_pending i j receipt other o p r q s e f apart own settled settled' g
      h last returned returned' =
    let s' = (accept_receipt column i receipt (o, r) s).1 in
    let taken = accept_receipt-Taken column i receipt o r s returned in
    let taken' = accept_receipt-Taken column j other p q s' returned' in
    let there = find-Taken i j receipt s s' apart taken ∙ f in
    (
      passes i o r e g refl,
      passes j p q f h own,
      omega (
        arith,
        last,
        pending-Taken i o.customer_id receipt o s s' e refl settled taken,
        pending-Taken j o.customer_id other p s' _ there own settled' taken',
      ),
    )
  where
    passes :
        (k : ℕ) (a : Order) (b : Reseller)
        → find s.orders k ≡ some a
        → find s.resellers a.reseller_id ≡ some b
        → a.customer_id ≡ o.customer_id
        → check_receipt max_pending k s ≡ (ok (a, b), s)
    passes k a b found reseller same =
        unfold check_receipt count_pending_orders in rw (found, room same, reseller) refl
      where
        room :
            a.customer_id ≡ o.customer_id → leb max_pending (pending_orders a.customer_id s) ≡ false
        room same = rw same (ground (arith, last))
