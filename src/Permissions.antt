-- ===== src/Permissions.antt =====
-- core/permissions_middleware.py and handlers/operator/orders.py: who may act on orders.
pub mod Allowed
use baste.Prelude.{
  ℕ, Bool, true, false, ◌&&◌, ◌||◌, Option, none, some, ◌==◌, if◌then◌else◌, is_some,
}
use baste.Table.{find, select_one}
use baste.Schema.{Db, Reseller, Operator}
use baste.Exec.{M, pure, fetch, ◌>>=◌, ◌>>◌}

-- `reseller and reseller["telegram_numeric_id"] == user_id`
unfoldable pub is_owner : ℕ → Option Reseller → Bool
is_owner user none = false
is_owner user (some r) = r.telegram_numeric_id == user

unfoldable pub is_operator_row : ℕ → ℕ → ℕ → Operator → Bool
is_operator_row reseller_id user _ o =
    o.reseller_id == reseller_id && o.telegram_user_id == user && o.is_active

-- handlers/operator/orders.py
unfoldable pub is_active_operator : ℕ → ℕ → M Bool
is_active_operator reseller_id user =
    fetch (λ s. is_some (select_one (is_operator_row reseller_id user) s.operators))

-- OrderActionPermissionMiddleware: `none` is the refusal, which answers the event with an alert and
-- does not call the handler.
unfoldable pub order_action : {A : Type 0} → M A → ℕ → ℕ → M (Option A)
unfolding is_owner is_operator_row is_active_operator
order_action handler reseller_id user = do
  reseller ← fetch (λ s. find s.resellers reseller_id)
  if is_owner user reseller then (do result ← handler; pure (some result)) else do
    operator ← is_active_operator reseller_id user
    if operator then (do result ← handler; pure (some result)) else pure none
