-- ===== src/Reseller/Catalog/Filters.antt =====
-- handlers/reseller/catalog.py: the filters of the router, in its order: the first that matches runs.
use baste.Prelude.{ℕ, suc, List, [], ◌∷◌, Option, some, if◌then◌else◌}
use baste.Text.{codes, text_eq}
use baste.Chat.{
  ChatState, in_panel, Session, World, Callback, Message, H, done, PanelState, in_category,
  CategoryState, in_package, PackageState, in_manage, ManageState,
}
use baste.Customer.{starts_with}
use baste.Reseller.ChargeStock.{split_colons}
use baste.Reseller.Catalog.{
  catalog_type_menu_cb, catalog_menu, view_catalog, start_add_operator,
  receive_operator_name_and_save, start_add_subcategory, pick_operator_for_sub,
  receive_subcategory_title_and_save,
}
use baste.Reseller.Catalog.Products.{
  start_add_package, pick_operator_for_pkg, pick_category, receive_package_name, receive_price,
  confirm_suspicious_price, edit_suspicious_price, receive_cost_price_and_save,
}
use baste.Reseller.Catalog.Manage.{
  manage_operators_cb, manage_operator_detail_cb, manage_subcategory_detail_cb,
  manage_package_detail_cb,
}
use baste.Reseller.Catalog.Edits.{
  start_edit_operator_name, save_operator_name_edit, start_edit_subcategory_title,
  save_subcategory_title_edit, start_edit_package_name, save_package_name_edit,
  start_edit_package_price, receive_package_price_edit, confirm_edit_suspicious_price,
  edit_again_suspicious_price, start_edit_package_cost, save_package_cost_edit,
  toggle_package_active,
}
use baste.Reseller.Catalog.Removal.{
  confirm_delete_operator, delete_operator_confirmed, delete_operator_cancelled,
  confirm_delete_subcategory, delete_subcategory_confirmed, delete_subcategory_cancelled,
  confirm_delete_package, delete_package_confirmed, delete_package_cancelled,
}

-- The deletions.
unfoldable pub removal_callback : ℕ → Callback → H Unit
unfolding split_colons starts_with text_eq
removal_callback reseller_id callback =
    if starts_with (codes "catalog:del_op:") callback.data_
    then confirm_delete_operator callback.user (split_colons callback.data_)
    else if starts_with (codes "catalog:del_op_yes:") callback.data_
    then delete_operator_confirmed callback.user reseller_id (split_colons callback.data_)
    else if starts_with (codes "catalog:del_op_no:") callback.data_
    then delete_operator_cancelled callback.user (split_colons callback.data_)
    else if starts_with (codes "catalog:del_sub:") callback.data_
    then confirm_delete_subcategory callback.user (split_colons callback.data_)
    else if starts_with (codes "catalog:del_sub_yes:") callback.data_
    then delete_subcategory_confirmed callback.user (split_colons callback.data_)
    else if starts_with (codes "catalog:del_sub_no:") callback.data_
    then delete_subcategory_cancelled callback.user (split_colons callback.data_)
    else if starts_with (codes "catalog:del_pkg:") callback.data_
    then confirm_delete_package callback.user (split_colons callback.data_)
    else if starts_with (codes "catalog:del_pkg_yes:") callback.data_
    then delete_package_confirmed callback.user (split_colons callback.data_)
    else if starts_with (codes "catalog:del_pkg_no:") callback.data_
    then delete_package_cancelled callback.user (split_colons callback.data_)
    else done tt

-- The management.
unfoldable pub manage_callback : ℕ → Callback → H Unit
unfolding split_colons starts_with text_eq removal_callback
manage_callback reseller_id callback =
    if starts_with (codes "catalog:manage:") callback.data_
    then manage_operators_cb callback.user reseller_id (split_colons callback.data_)
    else if starts_with (codes "catalog:manage_op:") callback.data_
    then manage_operator_detail_cb callback.user (split_colons callback.data_)
    else if starts_with (codes "catalog:manage_sub:") callback.data_
    then manage_subcategory_detail_cb callback.user (split_colons callback.data_)
    else if starts_with (codes "catalog:manage_pkg:") callback.data_
    then manage_package_detail_cb callback.user (split_colons callback.data_)
    else if starts_with (codes "catalog:edit_op_name:") callback.data_
    then start_edit_operator_name callback.user (split_colons callback.data_)
    else if starts_with (codes "catalog:edit_sub_title:") callback.data_
    then start_edit_subcategory_title callback.user (split_colons callback.data_)
    else if starts_with (codes "catalog:edit_pkg_name:") callback.data_
    then start_edit_package_name callback.user (split_colons callback.data_)
    else if starts_with (codes "catalog:edit_pkg_price:") callback.data_
    then start_edit_package_price callback.user (split_colons callback.data_)
    else if starts_with (codes "pkgedit_price_confirm:") callback.data_
    then confirm_edit_suspicious_price callback.user (split_colons callback.data_)
    else if starts_with (codes "pkgedit_price_edit:") callback.data_
    then edit_again_suspicious_price callback.user (split_colons callback.data_)
    else if starts_with (codes "catalog:edit_pkg_cost:") callback.data_
    then start_edit_package_cost callback.user (split_colons callback.data_)
    else if starts_with (codes "catalog:toggle_pkg:") callback.data_
    then toggle_package_active callback.user (split_colons callback.data_)
    else removal_callback reseller_id callback

-- All buttons of the catalog.
unfoldable pub catalog_callback : ℕ → Callback → H Unit
unfolding split_colons starts_with text_eq manage_callback
catalog_callback reseller_id callback =
    if text_eq callback.data_ (codes "rmenu:catalog")
    then catalog_type_menu_cb callback.user
    else if starts_with (codes "catalog:menu:") callback.data_
    then catalog_menu callback.user (split_colons callback.data_)
    else if starts_with (codes "catalog:view:") callback.data_
    then view_catalog callback.user reseller_id (split_colons callback.data_)
    else if starts_with (codes "catalog:add_operator:") callback.data_
    then start_add_operator callback.user (split_colons callback.data_)
    else if starts_with (codes "catalog:add_subcategory:") callback.data_
    then start_add_subcategory callback.user reseller_id (split_colons callback.data_)
    else if starts_with (codes "catalog:pick_operator_for_sub:") callback.data_
    then pick_operator_for_sub callback.user (split_colons callback.data_)
    else if starts_with (codes "catalog:add_package:") callback.data_
    then start_add_package callback.user reseller_id (split_colons callback.data_)
    else if starts_with (codes "catalog:pick_operator_for_pkg:") callback.data_
    then pick_operator_for_pkg callback.user (split_colons callback.data_)
    else if starts_with (codes "catalog:pick_category:") callback.data_
    then pick_category callback.user (split_colons callback.data_)
    else if starts_with (codes "price_confirm:") callback.data_
    then confirm_suspicious_price callback.user (split_colons callback.data_)
    else if starts_with (codes "price_edit:") callback.data_
    then edit_suspicious_price callback.user (split_colons callback.data_)
    else manage_callback reseller_id callback

-- The messages that the states of the catalog take.
unfoldable pub catalog_message : World → ℕ → Message → PanelState → H Unit
catalog_message w reseller_id m (in_category CategoryState.entering_operator_name) =
    receive_operator_name_and_save m reseller_id
catalog_message w reseller_id m (in_category CategoryState.entering_subcategory_title) =
    receive_subcategory_title_and_save m reseller_id
catalog_message w reseller_id m (in_package PackageState.entering_name) = receive_package_name m
catalog_message w reseller_id m (in_package PackageState.entering_price) = receive_price w m
catalog_message w reseller_id m (in_package PackageState.entering_cost_price) =
    receive_cost_price_and_save w m reseller_id
catalog_message w reseller_id m (in_manage ManageState.editing_operator_name) =
    save_operator_name_edit m
catalog_message w reseller_id m (in_manage ManageState.editing_subcategory_title) =
    save_subcategory_title_edit m
catalog_message w reseller_id m (in_manage ManageState.editing_package_name) =
    save_package_name_edit m
catalog_message w reseller_id m (in_manage ManageState.editing_package_price) =
    receive_package_price_edit w m
catalog_message w reseller_id m (in_manage ManageState.editing_package_cost_price) =
    save_package_cost_edit w m
catalog_message w reseller_id m state = done tt

-- What the reseller sends: the press of a button or a message.
pub data Event : Type 0 where
  button_pressed : Callback → Event
  typed : Message → Event

unfoldable pub in_state : World → ℕ → Message → Option ChatState → H Unit
unfolding catalog_message
in_state w k m (some (in_panel state)) = catalog_message w k m state
in_state w k m state = done tt

unfoldable pub handle_event : World → ℕ → Event → Session → Session
unfolding catalog_callback in_state
handle_event w k (button_pressed callback) s = (catalog_callback k callback s).1
handle_event w k (typed m) s = (in_state w k m s.state s).1

-- `world n` is what the n-th event reads besides the database.
unfoldable pub serve_events : (ℕ → World) → ℕ → ℕ → List Event → Session → Session
unfolding handle_event
serve_events world k n [] s = s
serve_events world k n (e ∷ rest) s =
    serve_events world k (suc n) rest (handle_event (world n) k e s)
