-- ===== src/Reseller/ChargeStock/Filters.antt =====
-- handlers/reseller/charge_stock.py: the filters of the router.
use baste.Prelude.{ℕ, if◌then◌else◌}
use baste.Text.{codes, text_eq}
use baste.Chat.{World, Callback, H, done}
use baste.Customer.{starts_with}
use baste.Reseller.ChargeStock.{
  split_colons, charge_stock_menu_cb, pick_operator_for_action, pick_category_for_action,
  pick_product_for_action,
}
use baste.Reseller.ChargeStock.Actions.{act_on_product, delete_single_code, clear_all_codes}

-- The first filter that matches.
unfoldable pub stock_callback : World → ℕ → Callback → H Unit
unfolding split_colons starts_with text_eq
stock_callback w reseller_id callback =
    if text_eq callback.data_ (codes "rmenu:charge_stock")
    then charge_stock_menu_cb callback.user
    else if starts_with (codes "cstock:pick:") callback.data_
    then pick_operator_for_action callback.user reseller_id (split_colons callback.data_)
    else if starts_with (codes "cstock:op:") callback.data_
    then pick_category_for_action callback.user (split_colons callback.data_)
    else if starts_with (codes "cstock:cat:") callback.data_
    then pick_product_for_action w callback.user (split_colons callback.data_)
    else if starts_with (codes "cstock:prod:") callback.data_
    then act_on_product callback.user (split_colons callback.data_)
    else if starts_with (codes "cstock:delcode:") callback.data_
    then delete_single_code callback.user (split_colons callback.data_)
    else if starts_with (codes "cstock:clearall:") callback.data_
    then clear_all_codes callback.user (split_colons callback.data_)
    else done tt
