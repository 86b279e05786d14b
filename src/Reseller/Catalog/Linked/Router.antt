-- ===== src/Reseller/Catalog/Linked/Router.antt =====
-- handlers/reseller/catalog.py: whatever the reseller presses and types, the references are kept.
use baste.Prelude.{ℕ, suc, Option, none, some, List, [], ◌∷◌}
use baste.Chat.{
  World, Message, Callback, Session, ChatState, in_panel, PanelState, in_category, CategoryState,
  in_package, PackageState, in_manage, ManageState,
}
use baste.Chat.Keeps.{KeepsSession, Fine, session_rules, session-done}
use baste.Reseller.Catalog.Filters.{
  catalog_callback, manage_callback, removal_callback, catalog_message, Event, button_pressed,
  typed, in_state, handle_event, serve_events,
}
use baste.Reseller.Catalog.Linked.{Linked}
use baste.Reseller.Catalog.Linked.Making.{
  catalog_type_menu_cb-Linked, catalog_menu-Linked, view_catalog-Linked, start_add_operator-Linked,
  receive_operator_name_and_save-Linked, start_add_subcategory-Linked, pick_operator_for_sub-Linked,
  receive_subcategory_title_and_save-Linked, start_add_package-Linked, pick_operator_for_pkg-Linked,
  pick_category-Linked, receive_package_name-Linked, receive_price-Linked,
  confirm_suspicious_price-Linked, edit_suspicious_price-Linked, receive_cost_price_and_save-Linked,
}
use baste.Reseller.Catalog.Linked.Pages.{
  manage_operators_cb-Linked, manage_operator_detail_cb-Linked, manage_subcategory_detail_cb-Linked,
  manage_package_detail_cb-Linked,
}
use baste.Reseller.Catalog.Linked.Changes.{
  start_edit_operator_name-Linked, save_operator_name_edit-Linked,
  start_edit_subcategory_title-Linked, save_subcategory_title_edit-Linked,
  start_edit_package_name-Linked, save_package_name_edit-Linked, start_edit_package_price-Linked,
  receive_package_price_edit-Linked, confirm_edit_suspicious_price-Linked,
  edit_again_suspicious_price-Linked, start_edit_package_cost-Linked, save_package_cost_edit-Linked,
  toggle_package_active-Linked,
}
use baste.Reseller.Catalog.Linked.Removals.{
  confirm_delete_operator-Linked, delete_operator_confirmed-Linked,
  delete_operator_cancelled-Linked, confirm_delete_subcategory-Linked,
  delete_subcategory_confirmed-Linked, delete_subcategory_cancelled-Linked,
  confirm_delete_package-Linked, delete_package_confirmed-Linked, delete_package_cancelled-Linked,
}

removal-Linked : (k : ℕ) (callback : Callback) → KeepsSession Linked (removal_callback k callback)
unfolding removal_callback
removal-Linked k callback =
    search
      (
        session_rules, confirm_delete_operator-Linked, delete_operator_confirmed-Linked,
        delete_operator_cancelled-Linked, confirm_delete_subcategory-Linked,
        delete_subcategory_confirmed-Linked, delete_subcategory_cancelled-Linked,
        confirm_delete_package-Linked, delete_package_confirmed-Linked,
        delete_package_cancelled-Linked,
      )
      depth 40

manage-Linked : (k : ℕ) (callback : Callback) → KeepsSession Linked (manage_callback k callback)
unfolding manage_callback
manage-Linked k callback =
    search
      (
        session_rules, removal-Linked, manage_operators_cb-Linked, manage_operator_detail_cb-Linked,
        manage_subcategory_detail_cb-Linked, manage_package_detail_cb-Linked,
        start_edit_operator_name-Linked, start_edit_subcategory_title-Linked,
        start_edit_package_name-Linked, start_edit_package_price-Linked,
        confirm_edit_suspicious_price-Linked, edit_again_suspicious_price-Linked,
        start_edit_package_cost-Linked, toggle_package_active-Linked,
      )
      depth 40

callback-Linked : (k : ℕ) (callback : Callback) → KeepsSession Linked (catalog_callback k callback)
unfolding catalog_callback
callback-Linked k callback =
    search
      (
        session_rules, manage-Linked, catalog_type_menu_cb-Linked, catalog_menu-Linked,
        view_catalog-Linked, start_add_operator-Linked, start_add_subcategory-Linked,
        pick_operator_for_sub-Linked, start_add_package-Linked, pick_operator_for_pkg-Linked,
        pick_category-Linked, confirm_suspicious_price-Linked, edit_suspicious_price-Linked,
      )
      depth 40

message-Linked :
    (w : World) (k : ℕ) (m : Message) (state : PanelState)
    → KeepsSession Linked (catalog_message w k m state)
unfolding catalog_message
message-Linked w k m (in_category CategoryState.entering_operator_name) =
    receive_operator_name_and_save-Linked m k
message-Linked w k m (in_category CategoryState.entering_subcategory_title) =
    receive_subcategory_title_and_save-Linked m k
message-Linked w k m (in_package PackageState.entering_name) = receive_package_name-Linked m
message-Linked w k m (in_package PackageState.entering_price) = receive_price-Linked w m
message-Linked w k m (in_package PackageState.entering_cost_price) =
    receive_cost_price_and_save-Linked w m k
message-Linked w k m (in_manage ManageState.editing_operator_name) =
    save_operator_name_edit-Linked m
message-Linked w k m (in_manage ManageState.editing_subcategory_title) =
    save_subcategory_title_edit-Linked m
message-Linked w k m (in_manage ManageState.editing_package_name) = save_package_name_edit-Linked m
message-Linked w k m (in_manage ManageState.editing_package_price) =
    receive_package_price_edit-Linked w m
message-Linked w k m (in_manage ManageState.editing_package_cost_price) =
    save_package_cost_edit-Linked w m
message-Linked w k m state = session-done tt

in_state-Linked :
    (w : World) (k : ℕ) (m : Message) (state : Option ChatState)
    → KeepsSession Linked (in_state w k m state)
unfolding in_state
in_state-Linked w k m none = session-done tt
in_state-Linked w k m (some (in_panel state)) = message-Linked w k m state
in_state-Linked w k m (some state) = session-done tt

handle-Linked :
    (w : World) (k : ℕ) (e : Event) (s : Session)
    → Fine Linked s
    → Fine Linked (handle_event w k e s)
unfolding handle_event
handle-Linked w k (button_pressed callback) s h = (callback-Linked k callback).at s h
handle-Linked w k (typed m) s h = (in_state-Linked w k m s.state).at s h

-- If every order and charge code has its package, every package its category and every category the
-- parent that it names, and the rows of categories and packages are in the order of their keys, then
-- so it is after any sequence of buttons that the reseller presses in the menus of the catalog and of
-- messages sent to its states, each handled to its end before the next, however the handlers end.
pub serve_events-Linked :
    (world : ℕ → World) (k n : ℕ) (events : List Event) (s : Session)
    → Fine Linked s
    → Fine Linked (serve_events world k n events s)
unfolding serve_events
serve_events-Linked world k n [] s h = h
serve_events-Linked world k n (e ∷ rest) s h =
    serve_events-Linked world k (suc n) rest _ (handle-Linked (world n) k e s h)
