-- ===== src/Reseller/Catalog/Linked/Changes.antt =====
-- handlers/reseller/catalog.py: the edits keep the references.
use baste.Prelude.{ℕ, Option, none, some, List}
use baste.Text.{Text}
use baste.Chat.{World, Message, PendingEdit}
use baste.Chat.Decimals.{Amount}
use baste.Chat.Keeps.{KeepsSession, holds, session-update_set, session-set_state}
use baste.Reseller.Catalog.Linked.{Linked}
use baste.Reseller.Catalog.Linked.Handlers.{catalog_rules}
use baste.Reseller.Catalog.Linked.Writes.{
  rename_operator-Linked, rename_subcategory-Linked, rename_package-Linked, set_sale_price-Linked,
  set_cost_price-Linked, toggle_active-Linked,
}
use baste.Reseller.Catalog.Linked.Pages.{render_package_detail-Linked}
use baste.Reseller.Catalog.Edits.{
  start_edit_operator_name, save_operator_name_edit, start_edit_subcategory_title,
  save_subcategory_title_edit, start_edit_package_name, save_package_name_edit,
  start_edit_package_price, keep_edit, pop_edit, question_edit, change_price, take_price_edit,
  receive_package_price_edit, apply_edit, confirm_edit_suspicious_price,
  edit_again_suspicious_price, start_edit_package_cost, save_cost, save_package_cost_edit,
  toggle_package_active,
}

pub start_edit_operator_name-Linked :
    (user : ℕ) (parts : List Text) → KeepsSession Linked (start_edit_operator_name user parts)
unfolding start_edit_operator_name holds
start_edit_operator_name-Linked user parts = search (catalog_rules, session-update_set) depth 40

pub save_operator_name_edit-Linked : (m : Message) → KeepsSession Linked (save_operator_name_edit m)
unfolding save_operator_name_edit
save_operator_name_edit-Linked m = search (catalog_rules, rename_operator-Linked) depth 40

pub start_edit_subcategory_title-Linked :
    (user : ℕ) (parts : List Text) → KeepsSession Linked (start_edit_subcategory_title user parts)
unfolding start_edit_subcategory_title holds
start_edit_subcategory_title-Linked user parts = search (catalog_rules, session-update_set) depth 40

pub save_subcategory_title_edit-Linked :
    (m : Message) → KeepsSession Linked (save_subcategory_title_edit m)
unfolding save_subcategory_title_edit
save_subcategory_title_edit-Linked m = search (catalog_rules, rename_subcategory-Linked) depth 40

pub start_edit_package_name-Linked :
    (user : ℕ) (parts : List Text) → KeepsSession Linked (start_edit_package_name user parts)
unfolding start_edit_package_name holds
start_edit_package_name-Linked user parts = search (catalog_rules, session-update_set) depth 40

pub save_package_name_edit-Linked : (m : Message) → KeepsSession Linked (save_package_name_edit m)
unfolding save_package_name_edit
save_package_name_edit-Linked m = search (catalog_rules, rename_package-Linked) depth 40

pub start_edit_package_price-Linked :
    (user : ℕ) (parts : List Text) → KeepsSession Linked (start_edit_package_price user parts)
unfolding start_edit_package_price holds
start_edit_package_price-Linked user parts = search (catalog_rules, session-update_set) depth 40

keep_edit-Linked : (t : Text) (edit : PendingEdit) → KeepsSession Linked (keep_edit t edit)
unfolding keep_edit
keep_edit-Linked t edit = record { at = λ s h. record { db_ok = h.db_ok; is_ready = h.is_ready } }

pop_edit-Linked : (t : Text) → KeepsSession Linked (pop_edit t)
unfolding pop_edit
pop_edit-Linked t = record { at = λ s h. record { db_ok = h.db_ok; is_ready = h.is_ready } }

question_edit-Linked :
    (w : World) (m : Message) (i : ℕ) (t : Option Text) (price : Amount)
    → KeepsSession Linked (question_edit w m i t price)
unfolding question_edit holds
question_edit-Linked w m i t price =
    search (catalog_rules, keep_edit-Linked, session-set_state) depth 20

change_price-Linked :
    (m : Message) (i : ℕ) (t : Option Text) (price : Amount)
    → KeepsSession Linked (change_price m i t price)
unfolding change_price
change_price-Linked m i t price = search (catalog_rules, set_sale_price-Linked) depth 20

pub take_price_edit-Linked :
    (w : World) (m : Message) (o : Option Amount) → KeepsSession Linked (take_price_edit w m o)
unfolding take_price_edit holds
take_price_edit-Linked w m none = search catalog_rules
take_price_edit-Linked w m (some price) =
    search (catalog_rules, question_edit-Linked, change_price-Linked) depth 20

pub receive_package_price_edit-Linked :
    (w : World) (m : Message) → KeepsSession Linked (receive_package_price_edit w m)
unfolding receive_package_price_edit
receive_package_price_edit-Linked w m = search (catalog_rules, take_price_edit-Linked) depth 40

pub apply_edit-Linked :
    (user : ℕ) (o : Option PendingEdit) → KeepsSession Linked (apply_edit user o)
unfolding apply_edit holds
apply_edit-Linked user none = search catalog_rules
apply_edit-Linked user (some e) = search (catalog_rules, set_sale_price-Linked) depth 20

pub confirm_edit_suspicious_price-Linked :
    (user : ℕ) (parts : List Text) → KeepsSession Linked (confirm_edit_suspicious_price user parts)
unfolding confirm_edit_suspicious_price
confirm_edit_suspicious_price-Linked user parts =
    search (catalog_rules, pop_edit-Linked, apply_edit-Linked) depth 40

pub edit_again_suspicious_price-Linked :
    (user : ℕ) (parts : List Text) → KeepsSession Linked (edit_again_suspicious_price user parts)
unfolding edit_again_suspicious_price holds
edit_again_suspicious_price-Linked user parts =
    search (catalog_rules, pop_edit-Linked, session-set_state) depth 40

pub start_edit_package_cost-Linked :
    (user : ℕ) (parts : List Text) → KeepsSession Linked (start_edit_package_cost user parts)
unfolding start_edit_package_cost holds
start_edit_package_cost-Linked user parts = search (catalog_rules, session-update_set) depth 40

pub save_cost-Linked : (m : Message) (o : Option Amount) → KeepsSession Linked (save_cost m o)
unfolding save_cost holds
save_cost-Linked m none = search catalog_rules
save_cost-Linked m (some price) = search (catalog_rules, set_cost_price-Linked) depth 40

pub save_package_cost_edit-Linked :
    (w : World) (m : Message) → KeepsSession Linked (save_package_cost_edit w m)
unfolding save_package_cost_edit
save_package_cost_edit-Linked w m = search (catalog_rules, save_cost-Linked) depth 40

pub toggle_package_active-Linked :
    (user : ℕ) (parts : List Text) → KeepsSession Linked (toggle_package_active user parts)
unfolding toggle_package_active
toggle_package_active-Linked user parts =
    search (catalog_rules, toggle_active-Linked, render_package_detail-Linked) depth 40
