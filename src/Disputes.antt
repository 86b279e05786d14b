-- ===== src/Disputes.antt =====
-- services/dispute_service.py: the disputes over receipts, and the refund of the commission.
pub mod Refund
use baste.Prelude.{ℕ, Bool, true, false, Option, none, some}
use baste.Text.{Text}
use baste.Table.{find, update, insert}
use baste.Schema.{Db, Dispute, ReviewStatus, OrderStatus, Order, Customer}
use baste.Exec.{
  M, Error, not_found, type_error, integrity_error, pure, fetch, execute, or_raise, ◌>>=◌, ◌>>◌,
}
use baste.Wallet.{refund_commission}
use baste.Orders.{update_order}
use baste.Blacklist.{maybe_auto_blacklist}

unfoldable pub set_status : OrderStatus → Order → Order
set_status status o = record o { status = status }

-- The foreign keys of the new row want the order and the reseller.
unfoldable pub create_dispute : ℕ → ℕ → Text → M ℕ
create_dispute order_id reseller_id reason = do
  execute (update_order order_id (set_status OrderStatus.refund_pending))
  or_raise (← fetch (λ s. find s.orders order_id)) integrity_error
  or_raise (← fetch (λ s. find s.resellers reseller_id)) integrity_error
  dispute_id ← fetch (λ s. s.disputes.next_id)
  execute (λ s. record s {
    disputes = insert s.disputes (record {
      order_id = order_id;
      reseller_id = reseller_id;
      reason = reason;
      review_status = ReviewStatus.pending;
      refunded_amount = none;
      reviewed_at = none;
    });
  })
  pure dispute_id

unfoldable pub update_dispute : ℕ → (Dispute → Dispute) → Db → Db
update_dispute dispute_id f s = record s { disputes = update s.disputes dispute_id f }

unfoldable pub blacklist_customer : (ℕ → Text) → Option Customer → M Unit
blacklist_customer reason none = pure tt
blacklist_customer reason (some c) = do maybe_auto_blacklist reason c.telegram_user_id; pure tt

-- `order` may be missing (`order["commission_amount"]` then raises).
unfoldable pub approve_dispute : (ℕ → Text) → ℕ → ℕ → M Unit
unfolding blacklist_customer
approve_dispute reason now dispute_id = do
  dispute ← or_raise (← fetch (λ s. find s.disputes dispute_id)) not_found
  order ← or_raise (← fetch (λ s. find s.orders dispute.order_id)) type_error
  refund_commission dispute.reseller_id order.commission_amount order.order_code
  execute (
      update_dispute dispute_id (λ d. record d {
        review_status = ReviewStatus.approved;
        refunded_amount = some order.commission_amount;
        reviewed_at = some now;
      }))
  execute (update_order dispute.order_id (set_status OrderStatus.refunded))
  customer ← fetch (λ s. find s.customers order.customer_id)
  blacklist_customer reason customer

unfoldable pub reject_dispute : ℕ → ℕ → M Unit
reject_dispute now dispute_id = execute (
    update_dispute dispute_id
      (λ d. record d { review_status = ReviewStatus.rejected; reviewed_at = some now }))
