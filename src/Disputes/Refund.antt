-- ===== src/Disputes/Refund.antt =====
-- services/dispute_service.py, approve_dispute: what an approval pays, and how often.
use baste.Prelude.{ℕ, ◌≡◌, refl, Bool, Option, none, some, arith, ◌==◌, if◌then◌else◌}
use baste.Prelude.Int.{ℤ, ◌+ℤ◌}
use baste.Text.{Text}
use baste.Table.{find}
use baste.Table.Laws.{find-update}
use baste.Schema.{
  Db, Dispute, ReviewStatus, Order, OrderStatus, Reseller, Customer, TransactionType,
  TransactionStatus,
}
use baste.Exec.Keeps.{Keeps, keeps_rules}
use baste.Wallet.{refund_commission, set_balance, add_transaction}
use baste.Orders.{update_order}
use baste.Blacklist.{maybe_auto_blacklist, add_to_blacklist, count_confirmed_fake_receipts}
use baste.Disputes.{approve_dispute, update_dispute, blacklist_customer, set_status}

-- A reseller with `amount` more in the commission wallet.
abbrev pub refunded_by : ℤ → Reseller → Reseller
refunded_by amount r = record r { wallet_credit_balance = r.wallet_credit_balance +ℤ amount }

-- What the blacklist check leaves alone: the disputes, the orders and the resellers.
record Same (t s : Db) : Type 0 where
  pub resellers : s.resellers ≡ t.resellers
  pub orders : s.orders ≡ t.orders
  pub disputes : s.disputes ≡ t.disputes

add_to_blacklist-Same :
    (t : Db) (user : ℕ) (reason : Text) (k : Option ℕ) (b : Bool)
    → Keeps (Same t) (add_to_blacklist user reason k b)
unfolding add_to_blacklist
add_to_blacklist-Same t user reason k b = record {
  at = λ s h. record { resellers = h.resellers; orders = h.orders; disputes = h.disputes };
}

maybe_auto_blacklist-Same :
    (t : Db) (reason : ℕ → Text) (user : ℕ) → Keeps (Same t) (maybe_auto_blacklist reason user)
unfolding maybe_auto_blacklist count_confirmed_fake_receipts
maybe_auto_blacklist-Same t reason user = search (keeps_rules, add_to_blacklist-Same) depth 20

blacklist_customer-Same :
    (t : Db) (reason : ℕ → Text) (c : Option Customer)
    → Keeps (Same t) (blacklist_customer reason c)
unfolding blacklist_customer
blacklist_customer-Same t reason none = search keeps_rules
blacklist_customer-Same t reason (some c) = search (keeps_rules, maybe_auto_blacklist-Same) depth 8

own_wallet :
    (found : Option Reseller) (k : ℕ) (mine other : Option Reseller)
    → found ≡ (if k == k then mine else other)
    → found ≡ mine
own_wallet found k mine other e = ground arith

module _ (reason : ℕ → Text) (now i : ℕ) (s : Db) (d : Dispute) (o : Order) (r : Reseller) where
  abbrev approved_row : Dispute → Dispute
  approved_row d = record d {
    review_status = ReviewStatus.approved;
    refunded_amount = some o.commission_amount;
    reviewed_at = some now;
  }

  -- The tables that an approval writes, without the ledger and the blacklist.
  abbrev approved_state : Db
  approved_state = update_order d.order_id (set_status OrderStatus.refunded) (
      update_dispute i approved_row
        (set_balance d.reseller_id (r.wallet_credit_balance +ℤ o.commission_amount) s))

  -- The same with the row of the ledger.
  abbrev written : Db
  written = update_order d.order_id (set_status OrderStatus.refunded) (
      update_dispute i approved_row (
        add_transaction
          (record {
            reseller_id = d.reseller_id;
            kind = TransactionType.refund;
            amount = o.commission_amount;
            method = none;
            status = TransactionStatus.confirmed;
            reference = some o.order_code;
          })
          (set_balance d.reseller_id (r.wallet_credit_balance +ℤ o.commission_amount) s)))

  written-Same : Same approved_state written
  unfolding update_order update_dispute set_balance add_transaction
  written-Same = record { resellers = refl; orders = refl; disputes = refl }

  approve_state :
      find s.disputes i ≡ some d
      → find s.orders d.order_id ≡ some o
      → find s.resellers d.reseller_id ≡ some r
      → Same approved_state (approve_dispute reason now i s).1
  unfolding approve_dispute refund_commission
  approve_state e f g =
      rw (e, f, g)
        ((blacklist_customer-Same approved_state reason (find written.customers o.customer_id)).at
          written written-Same)

  -- An approval of a dispute whose order and reseller exist adds the commission of the order to the
  -- wallet of the reseller and to no other, marks the dispute as approved and the order as refunded.
  -- It does so whatever the dispute's and the order's statuses were before.
  pub approve_dispute_refunds :
      find s.disputes i ≡ some d
      → find s.orders d.order_id ≡ some o
      → find s.resellers d.reseller_id ≡ some r
      → let s' = (approve_dispute reason now i s).1 in
        (find s'.disputes i ≡ some (approved_row d))
        × (find s'.orders d.order_id ≡ some (set_status OrderStatus.refunded o))
        × ((j : ℕ)
            → find s'.resellers j ≡ (
                if d.reseller_id == j
                then some (refunded_by o.commission_amount r)
                else find s.resellers j))
  approve_dispute_refunds e f g =
      let same = approve_state e f g in
      (
        rw same.disputes (row_after e),
        rw same.orders (order_after f),
        λ j. rw same.resellers (wallet_after g j),
      )
    where
      row_after :
          find s.disputes i ≡ some d → find approved_state.disputes i ≡ some (approved_row d)
      row_after e =
          unfold update_order update_dispute set_balance in
          ground (arith, find-update s.disputes i i approved_row)

      order_after :
          find s.orders d.order_id ≡ some o
          → find approved_state.orders d.order_id ≡ some (set_status OrderStatus.refunded o)
      order_after f =
          unfold update_order update_dispute set_balance in
          ground
            (arith, find-update s.orders d.order_id d.order_id (set_status OrderStatus.refunded))

      wallet_after :
          find s.resellers d.reseller_id ≡ some r
          → (j : ℕ)
          → find approved_state.resellers j ≡ (
              if d.reseller_id == j
              then some (refunded_by o.commission_amount r)
              else find s.resellers j)
      wallet_after g j =
          unfold update_order update_dispute set_balance in
          ground (
            arith,
            find-update s.resellers d.reseller_id j (λ q. record q {
              wallet_credit_balance = r.wallet_credit_balance +ℤ o.commission_amount;
            }),
          )

-- Approving one dispute twice refunds the commission twice.
pub approve_dispute_twice :
    (reason : ℕ → Text) (now later i : ℕ) (s : Db) (d : Dispute) (o : Order) (r : Reseller)
    → find s.disputes i ≡ some d
    → find s.orders d.order_id ≡ some o
    → find s.resellers d.reseller_id ≡ some r
    → find
        (approve_dispute reason later i (approve_dispute reason now i s).1).1.resellers
        d.reseller_id
      ≡ some (refunded_by o.commission_amount (refunded_by o.commission_amount r))
unfolding set_status
approve_dispute_twice reason now later i s d o r e f g =
    let first = approve_dispute_refunds reason now i s d o r e f g in
    let own = own_wallet _ d.reseller_id _ _ (first.2 d.reseller_id) in
    let second =
      approve_dispute_refunds reason later i (approve_dispute reason now i s).1 _ _ _ first.0
        first.1 own in
    own_wallet _ d.reseller_id _ _ (second.2 d.reseller_id)
