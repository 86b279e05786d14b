-- ===== src/Notifications.antt =====
-- services/notifications.py: the alerts to a reseller and to the administrator. That a message could
-- not be sent is only logged.
use baste.Prelude.{ℕ, Option, none, some}
use baste.Text.{Text}
use baste.Table.{find}
use baste.Schema.{Reseller}
use baste.Exec.{fetch}
use baste.Chat.{World, H, ◌>>=◌, done, call, send}
use baste.Chat.Replies.{
  Reply, credit_alert, credit_alert_admin, topup_credit_alert, topup_credit_alert_admin,
}

-- To the reseller, if there is one.
unfoldable pub alert : Option Reseller → Reply → H Unit
alert none reply = done tt
alert (some r) reply = send r.telegram_numeric_id reply none

unfoldable pub notify_reseller_insufficient_credit : ℕ → Text → H Unit
unfolding alert
notify_reseller_insufficient_credit reseller_id order_code = do
  reseller ← call (fetch (λ s. find s.resellers reseller_id))
  alert reseller (credit_alert order_code)

unfoldable pub notify_reseller_wallet_topup_insufficient_credit : ℕ → ℕ → H Unit
unfolding alert
notify_reseller_wallet_topup_insufficient_credit reseller_id topup_id = do
  reseller ← call (fetch (λ s. find s.resellers reseller_id))
  alert reseller (topup_credit_alert topup_id)

unfoldable pub notify_super_admin_wallet_topup_insufficient_credit : World → ℕ → ℕ → H Unit
notify_super_admin_wallet_topup_insufficient_credit w reseller_id topup_id =
    send w.super_admin_telegram_id (topup_credit_alert_admin reseller_id topup_id) none

unfoldable pub notify_super_admin_insufficient_credit : World → ℕ → Text → H Unit
notify_super_admin_insufficient_credit w reseller_id order_code =
    send w.super_admin_telegram_id (credit_alert_admin reseller_id order_code) none
