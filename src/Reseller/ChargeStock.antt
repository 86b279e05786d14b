-- ===== src/Reseller/ChargeStock.antt =====
-- handlers/reseller/charge_stock.py: the stock of charge codes, from the operator to the product. An
-- edited message is sent here as a new one.
pub mod Actions
pub mod Filters
use baste.Prelude.{
  ℕ, zero, suc, Bool, true, false, Option, none, some, List, [], ◌∷◌, ◌==◌, if◌then◌else◌, map,
}
use baste.Text.{Text, codes, text_eq}
use baste.Text.Decimal.{int_of}
use baste.Text.Lines.{is_empty}
use baste.Table.{find, select}
use baste.Schema.{Db, CatalogType, Category, Package, ChargeCode}
use baste.Exec.{type_error, index_error, value_error, fetch}
use baste.Charge.{
  add_charge_codes, count_available_codes, available_codes, list_available_codes,
  delete_available_code, clear_available_codes,
}
use baste.Charge.Sold.{SoldCode, list_sold_codes}
use baste.Keyboards.{Keyboard}
use baste.Keyboards.Stock.{
  charge_stock_menu, charge_operator_pick_buttons, charge_category_pick_buttons,
  charge_product_pick_buttons, charge_code_remove_buttons,
}
use baste.Keyboards.Reseller.{back_to_reseller_menu_button}
use baste.Chat.{
  World, Callback, Message, H, ◌>>=◌, ◌>>◌, done, fail, call, send, answer, clear, get_data,
  set_state, update_data, present, ChatData, in_charge_codes, ChargeCodeState,
}
use baste.Chat.Replies.{
  Reply, StockAction, acknowledged, charge_stock_title, no_charge_catalog, operator_empty,
  choose_stock_category, category_empty, choose_stock_product, product_gone, invalid_codes,
  no_valid_codes, choose_product_to, ask_codes, stock_empty, nothing_to_remove,
  choose_code_to_remove, nothing_sold, stock_is, sold_are, codes_added, codes_cleared,
  code_deleted_last, code_deleted,
}
use baste.Customer.{operators_of, subcategories_of, starts_with}
use baste.Reseller.OrderReview.{acknowledge}

-- `text.split(":")`
unfoldable pub put_first : ℕ → List Text → List Text
put_first c [] = (c ∷ []) ∷ []
put_first c (t ∷ rest) = (c ∷ t) ∷ rest

unfoldable pub split_colons : Text → List Text
unfolding put_first
split_colons [] = [] ∷ []
split_colons (c ∷ t) =
    let rest = split_colons t in if c == b':' then [] ∷ rest else put_first c rest

-- `parts[n]`
unfoldable pub part : ℕ → List Text → H Text
part n [] = fail index_error
part zero (t ∷ rest) = done t
part (suc n) (t ∷ rest) = part n rest

unfoldable pub int_or_raise : Option ℕ → H ℕ
int_or_raise none = fail value_error
int_or_raise (some i) = done i

-- `int(parts[n])`
unfoldable pub int_part : ℕ → List Text → H ℕ
unfolding part int_or_raise
int_part n parts = do t ← part n parts; int_or_raise (int_of t)

unfoldable pub action_of : Text → Option StockAction
action_of t =
    if text_eq t (codes "add")
    then some StockAction.add
    else if text_eq t (codes "list")
    then some StockAction.list
    else if text_eq t (codes "remove")
    then some StockAction.remove
    else if text_eq t (codes "sold")
    then some StockAction.sold
    else none

unfoldable pub charge_stock_menu_cb : ℕ → H Unit
unfolding acknowledge
charge_stock_menu_cb user = do
  send user charge_stock_title (some charge_stock_menu)
  acknowledge user

unfoldable pub choose_operator_for : ℕ → Text → List (ℕ × Category) → H Unit
choose_operator_for user action [] = send user no_charge_catalog (some back_to_reseller_menu_button)
choose_operator_for user action (op ∷ rest) = do
  title ← present (action_of action)
  send user (choose_product_to title) (some (charge_operator_pick_buttons (op ∷ rest) action))

unfoldable pub pick_operator_for_action : ℕ → ℕ → List Text → H Unit
unfolding part operators_of choose_operator_for action_of acknowledge
pick_operator_for_action user reseller_id parts = do
  action ← part 2 parts
  operators ← call (fetch (operators_of reseller_id CatalogType.charge_catalog))
  choose_operator_for user action operators
  acknowledge user

unfoldable pub choose_category_for : ℕ → Text → List (ℕ × Category) → H Unit
choose_category_for user action [] = send user operator_empty (some charge_stock_menu)
choose_category_for user action (c ∷ rest) =
    send user choose_stock_category (some (charge_category_pick_buttons (c ∷ rest) action))

unfoldable pub pick_category_for_action : ℕ → List Text → H Unit
unfolding part int_part subcategories_of choose_category_for acknowledge
pick_category_for_action user parts = do
  action ← part 2 parts
  operator_id ← int_part 3 parts
  subcategories ← call (fetch (subcategories_of operator_id))
  choose_category_for user action subcategories
  acknowledge user

unfoldable pub packages_in : ℕ → Db → List (ℕ × Package)
packages_in category_id s = select (λ _ p. p.category_id == category_id) s.packages

-- The counts are read one after the other, from one database.
unfoldable pub choose_product_for : World → ℕ → Text → List (ℕ × Package) → H Unit
unfolding available_codes
choose_product_for w user action [] = send user category_empty (some charge_stock_menu)
choose_product_for w user action (p ∷ rest) = do
  available_count ← call (fetch (λ s package_id. available_codes package_id s))
  send user choose_stock_product
      (some (charge_product_pick_buttons w.format_price available_count (p ∷ rest) action))

unfoldable pub pick_product_for_action : World → ℕ → List Text → H Unit
unfolding part int_part packages_in choose_product_for acknowledge
pick_product_for_action w user parts = do
  action ← part 2 parts
  category_id ← int_part 3 parts
  products ← call (fetch (packages_in category_id))
  choose_product_for w user action products
  acknowledge user
