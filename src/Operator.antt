-- ===== src/Operator.antt =====
-- handlers/operator/orders.py: the command /pending_orders.
use baste.Prelude.{ℕ, Bool, true, false, ◌&&◌, none, some, List, [], ◌∷◌, ◌==◌, if◌then◌else◌}
use baste.Table.{find, select}
use baste.Schema.{Db, Order}
use baste.Exec.{fetch}
use baste.Orders.{is_awaiting_review}
use baste.Permissions.{is_active_operator}
use baste.Keyboards.Review.{order_review_buttons}
use baste.Chat.{Message, H, ◌>>=◌, ◌>>◌, done, call, answer, present}
use baste.Chat.Replies.{not_for_you, nothing_awaits_review, order_in_review}

-- The second half of the `or`, which reads the reseller only if the first is false.
unfoldable pub is_reseller : Message → ℕ → Bool → H Bool
is_reseller message reseller_id true = done true
is_reseller message reseller_id false = do
  reseller ← present (← call (fetch (λ s. find s.resellers reseller_id)))
  done (reseller.telegram_numeric_id == message.user)

unfoldable pub awaiting_orders : ℕ → Db → List (ℕ × Order)
awaiting_orders reseller_id s =
    select (λ _ o. o.reseller_id == reseller_id && is_awaiting_review o.status) s.orders

unfoldable pub show_orders : Message → List (ℕ × Order) → H Unit
show_orders message [] = done tt
show_orders message ((order_id, o) ∷ rest) = do
  answer message (order_in_review o.order_code o.package_price o.commission_amount)
      (some (order_review_buttons order_id))
  show_orders message rest

unfoldable pub list_orders : Message → List (ℕ × Order) → H Unit
unfolding show_orders
list_orders message [] = answer message nothing_awaits_review none
list_orders message (o ∷ rest) = show_orders message (o ∷ rest)

unfoldable pub list_pending_orders : Message → ℕ → H Unit
unfolding is_reseller list_orders awaiting_orders
list_pending_orders message reseller_id = do
  operator ← call (is_active_operator reseller_id message.user)
  allowed ← is_reseller message reseller_id operator
  if allowed
      then (do rows ← call (fetch (awaiting_orders reseller_id)); list_orders message rows)
      else answer message not_for_you none
