-- ===== src/Reseller/Callbacks.antt =====
-- handlers/reseller/orders.py: the pressed buttons. The prefix of the data chooses the handler, the
-- middleware asks who presses, and the id comes behind the colon.
pub mod RoundTrip
use baste.Prelude.{
  ℕ, Bool, true, false, ◌||◌, Option, none, some, List, [], ◌∷◌, ◌==◌, if◌then◌else◌, is_some,
}
use baste.Text.{Text, codes, text_eq}
use baste.Text.Decimal.{int_of}
use baste.Exec.{value_error, index_error, pure}
use baste.Permissions.{order_action}
use baste.Customer.{starts_with}
use baste.Chat.{World, Callback, H, ◌>>=◌, done, fail, call, send}
use baste.Chat.Replies.{not_permitted}
use baste.Reseller.OrderReview.{
  list_pending_orders_cb, approve_receipt, reject_receipt, activate, confirm_wallet_topup,
  reject_wallet_topup, open_dispute,
}

-- `text.split(":")[1]`: what stands between the first colon and the next, if there is one.
unfoldable pub until_colon : Text → Text
until_colon [] = []
until_colon (c ∷ t) = let rest = until_colon t in if c == b':' then [] else c ∷ rest

unfoldable pub second_field : Text → Option Text
unfolding until_colon
second_field [] = none
second_field (c ∷ t) = let rest = second_field t in if c == b':' then some (until_colon t) else rest

-- `int(callback.data.split(":")[1])`, and the handler of the id.
unfoldable pub or_value_error : Option ℕ → H ℕ
or_value_error none = fail value_error
or_value_error (some i) = done i

unfoldable pub read_id : Option Text → H ℕ
unfolding or_value_error
read_id none = fail index_error
read_id (some field) = or_value_error (int_of field)

unfoldable pub with_id : Text → (ℕ → H Unit) → H Unit
unfolding read_id second_field
with_id data_ handler = read_id (second_field data_) >>= handler

-- The first filter that matches; a callback that none matches goes on to the next router.
unfoldable pub order_callback : World → ℕ → ℕ → Text → H Unit
unfolding with_id
order_callback w reseller_id user data_ =
    if text_eq data_ (codes "rmenu:orders")
    then list_pending_orders_cb user reseller_id
    else if starts_with (codes "approve_receipt:") data_
    then with_id data_ (approve_receipt w user)
    else if starts_with (codes "reject_receipt:") data_
    then with_id data_ (reject_receipt user)
    else if starts_with (codes "activate_order:") data_
    then with_id data_ (activate w user)
    else if starts_with (codes "wallet_topup_confirm:") data_
    then with_id data_ (confirm_wallet_topup w user)
    else if starts_with (codes "wallet_topup_reject:") data_
    then with_id data_ (reject_wallet_topup user)
    else if starts_with (codes "open_dispute:") data_
    then with_id data_ (open_dispute user)
    else done tt

-- Whether a filter of the router matches.
unfoldable pub is_order_action : Text → Bool
is_order_action data_ =
    text_eq data_ (codes "rmenu:orders")
    || starts_with (codes "approve_receipt:") data_
    || starts_with (codes "reject_receipt:") data_
    || starts_with (codes "activate_order:") data_
    || starts_with (codes "wallet_topup_confirm:") data_
    || starts_with (codes "wallet_topup_reject:") data_
    || starts_with (codes "open_dispute:") data_

-- The middleware stands between the filters and the handler: it asks who presses where a filter matched.
unfoldable pub guarded_press : World → ℕ → Callback → H Unit
unfolding order_callback
guarded_press w reseller_id callback = do
  allowed ← call (order_action (pure tt) reseller_id callback.user)
  if is_some allowed
      then order_callback w reseller_id callback.user callback.data_
      else send callback.user not_permitted none

unfoldable pub press : World → ℕ → Callback → H Unit
unfolding is_order_action guarded_press
press w reseller_id callback =
    if is_order_action callback.data_ then guarded_press w reseller_id callback else done tt
