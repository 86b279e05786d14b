-- ===== src/Reseller/OrderReview.antt =====
-- handlers/reseller/orders.py: the review of receipts, the activation of orders, the customers'
-- top-ups, and the disputes. The ids come out of the data of the pressed button.
use baste.Prelude.{
  ℕ, Bool, true, false, ◌&&◌, not, Option, none, some, List, [], ◌∷◌, ◌++◌, ◌==◌, if◌then◌else◌,
  map_option, is_some,
}
use baste.Text.{Text, codes}
use baste.Text.Decimal.{decimal_text}
use baste.Table.{find, select}
use baste.Schema.{Db, Order, OrderStatus, Customer, WalletTopup, Package, Category}
use baste.Exec.{
  Result, ok, err, not_found, already_processed, topup_insufficient_credit, integrity_error, fetch,
  execute,
}
use baste.Orders.{
  confirm_order, reject_order, activate_order, update_order, is_awaiting_review, is_confirmed,
}
use baste.Disputes.{create_dispute, set_status}
use baste.CustomerWallet.{confirm_topup, reject_topup}
use baste.Notifications.{
  notify_reseller_wallet_topup_insufficient_credit,
  notify_super_admin_wallet_topup_insufficient_credit,
}
use baste.Keyboards.Review.{order_review_buttons, activate_order_button, dispute_button}
use baste.Keyboards.Reseller.{orders_refresh_button}
use baste.Chat.{
  World, Message, H, ◌>>=◌, ◌>>◌, done, fail, call, attempt, send, answer, clear, get_data,
  set_state, update_data, present, in_dispute, DisputeState,
}
use baste.Chat.Replies.{
  Reply, acknowledged, nothing_to_review, order_to_review, order_to_activate, receipt_approved,
  receipt_rejected, end_message, order_activated, topup_refused, topup_paid_without_commission,
  topup_paid, topup_rejected, your_topup_confirmed, ask_reason, dispute_opened,
}
use baste.Customer.Purchase.{package_label}

-- An order with its package and its category: the inner joins.
unfoldable pub package_of_order : ℕ → Db → Option (Order × (Package × Category))
package_of_order order_id s = elim (find s.orders order_id) [
  | none ↦ none
  | some o ↦ elim (find s.packages o.package_id) [
    | none ↦ none
    | some p ↦ map_option (λ c. (o, (p, c))) (find s.categories p.category_id)
  ]
]

unfoldable pub joined : Db → List (ℕ × Order) → List (ℕ × (Order × (Package × Category)))
joined s [] = []
joined s ((order_id, o) ∷ rest) =
    let more = joined s rest in
    elim (package_of_order order_id s) [ none ↦ more | some row ↦ (order_id, row) ∷ more ]

unfoldable pub orders_to_review : ℕ → Db → List (ℕ × (Order × (Package × Category)))
unfolding joined
orders_to_review reseller_id s =
    joined s (select (λ _ o. o.reseller_id == reseller_id && is_awaiting_review o.status) s.orders)

unfoldable pub orders_to_activate : ℕ → Db → List (ℕ × (Order × (Package × Category)))
unfolding joined
orders_to_activate reseller_id s = joined s (
    select
      (λ _ o.
        o.reseller_id == reseller_id && (is_confirmed o.status && not (is_some o.activated_at)))
      s.orders)

unfoldable pub show_to_review : ℕ → List (ℕ × (Order × (Package × Category))) → H Unit
show_to_review user [] = done tt
show_to_review user ((order_id, (o, package_row)) ∷ rest) = do
  send user
      (order_to_review o.order_code (package_label (some package_row)) o.package_price
        o.commission_amount o.phone_number)
      (some (order_review_buttons order_id))
  show_to_review user rest

unfoldable pub show_to_activate : ℕ → List (ℕ × (Order × (Package × Category))) → H Unit
show_to_activate user [] = done tt
show_to_activate user ((order_id, (o, package_row)) ∷ rest) = do
  send user
      (order_to_activate o.order_code (package_label (some package_row)) o.package_price
        o.phone_number)
      (some (activate_order_button order_id))
  show_to_activate user rest

unfoldable pub acknowledge : ℕ → H Unit
acknowledge user = send user acknowledged none

unfoldable pub no_orders : List (ℕ × (Order × (Package × Category))) → Bool
no_orders [] = true
no_orders (_ ∷ _) = false

unfoldable pub list_pending_orders_cb : ℕ → ℕ → H Unit
unfolding orders_to_review orders_to_activate no_orders show_to_review show_to_activate acknowledge
list_pending_orders_cb user reseller_id = do
  review_rows ← call (fetch (orders_to_review reseller_id))
  confirmed_rows ← call (fetch (orders_to_activate reseller_id))
  if no_orders review_rows && no_orders confirmed_rows
      then send user nothing_to_review (some orders_refresh_button)
      else (do show_to_review user review_rows; show_to_activate user confirmed_rows)
  acknowledge user

unfoldable pub approve_receipt : World → ℕ → ℕ → H Unit
unfolding package_of_order acknowledge
approve_receipt w user order_id = do
  call (confirm_order w.env.now order_id)
  order ← call (fetch (package_of_order order_id))
  send user (receipt_approved (map_option (λ r. package_label (some r.1)) order) (phone_of order))
      (some (activate_order_button order_id))
  acknowledge user
  where
    phone_of : Option (Order × (Package × Category)) → Option Text
    phone_of none = none
    phone_of (some (o, _)) = o.phone_number

unfoldable pub reject_receipt : ℕ → ℕ → H Unit
unfolding acknowledge
reject_receipt user order_id = do
  call (reject_order order_id)
  send user receipt_rejected (some (dispute_button order_id))
  acknowledge user

unfoldable pub tell_customer : Option Customer → Reply → H Unit
tell_customer none reply = done tt
tell_customer (some c) reply = send c.telegram_user_id reply none

unfoldable pub activate : World → ℕ → ℕ → H Unit
unfolding tell_customer acknowledge
activate w user order_id = do
  order ← present (← call (activate_order w.env.now order_id))
  reseller ← present (← call (fetch (λ s. find s.resellers order.reseller_id)))
  customer ← call (fetch (λ s. find s.customers order.customer_id))
  tell_customer customer (end_message reseller.end_order_message)
  send user (order_activated order.order_code) none
  acknowledge user

unfoldable pub tell_confirmed : WalletTopup → Option Customer → H Unit
tell_confirmed topup none = done tt
tell_confirmed topup (some c) =
    send c.telegram_user_id (your_topup_confirmed topup.amount c.wallet_balance) none

unfoldable pub notify_topup : Option WalletTopup → H Unit
unfolding tell_confirmed
notify_topup none = done tt
notify_topup (some topup) = do
  customer ← call (fetch (λ s. find s.customers topup.customer_id))
  tell_confirmed topup customer

unfoldable pub notify_customer_wallet_topup_confirmed : ℕ → H Unit
unfolding notify_topup
notify_customer_wallet_topup_confirmed topup_id = do
  topup ← call (fetch (λ s. find s.wallet_topups topup_id))
  notify_topup topup

unfoldable pub paid_without_commission : World → ℕ → ℕ → ℕ → ℕ → H Unit
unfolding notify_customer_wallet_topup_confirmed acknowledge
    notify_reseller_wallet_topup_insufficient_credit
    notify_super_admin_wallet_topup_insufficient_credit
paid_without_commission w user topup_id owner id = do
  notify_reseller_wallet_topup_insufficient_credit owner id
  notify_super_admin_wallet_topup_insufficient_credit w owner id
  notify_customer_wallet_topup_confirmed topup_id
  send user topup_paid_without_commission none
  acknowledge user

-- `except ValueError`: the request is missing, or it was processed before.
unfoldable pub after_confirmation : World → ℕ → ℕ → Result (Option WalletTopup) → H Unit
unfolding paid_without_commission notify_customer_wallet_topup_confirmed acknowledge
after_confirmation w user topup_id (ok _) = do
  notify_customer_wallet_topup_confirmed topup_id
  send user topup_paid none
  acknowledge user
after_confirmation w user topup_id (err not_found) = send user (topup_refused not_found) none
after_confirmation w user topup_id (err already_processed) =
    send user (topup_refused already_processed) none
after_confirmation w user topup_id (err (topup_insufficient_credit owner id)) =
    paid_without_commission w user topup_id owner id
after_confirmation w user topup_id (err e) = fail e

-- The reference of the commission in the ledger.
unfoldable pub topup_reference : ℕ → Text
unfolding decimal_text
topup_reference topup_id = codes "wallet-topup-" ++ decimal_text topup_id

unfoldable pub confirm_wallet_topup : World → ℕ → ℕ → H Unit
unfolding after_confirmation topup_reference
confirm_wallet_topup w user topup_id = do
  outcome ← attempt (confirm_topup w.column topup_reference w.env.now topup_id)
  after_confirmation w user topup_id outcome

unfoldable pub reject_wallet_topup : ℕ → ℕ → H Unit
unfolding acknowledge
reject_wallet_topup user topup_id = do
  call (reject_topup topup_id)
  send user topup_rejected none
  acknowledge user

unfoldable pub open_dispute : ℕ → ℕ → H Unit
unfolding acknowledge
open_dispute user order_id = do
  update_data (λ d. record d { dispute_order_id = some order_id })
  set_state (in_dispute DisputeState.entering_reason)
  send user ask_reason none
  acknowledge user

-- A message without a text has no reason: the order is marked, and the INSERT is refused.
unfoldable pub dispute_with : ℕ → ℕ → Option Text → H Unit
dispute_with order_id reseller_id none = do
  call (execute (update_order order_id (set_status OrderStatus.refund_pending)))
  fail integrity_error
dispute_with order_id reseller_id (some reason) = do
  call (create_dispute order_id reseller_id reason)
  done tt

unfoldable pub submit_dispute_reason : Message → H Unit
unfolding dispute_with
submit_dispute_reason message = do
  data_ ← get_data
  order_id ← present data_.dispute_order_id
  order ← present (← call (fetch (λ s. find s.orders order_id)))
  dispute_with order_id order.reseller_id message.text
  answer message dispute_opened none
  clear
