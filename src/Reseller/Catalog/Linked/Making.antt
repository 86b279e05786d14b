-- ===== src/Reseller/Catalog/Linked/Making.antt =====
-- handlers/reseller/catalog.py: the making of folders and products keeps the references.
use baste.Prelude.{ℕ, Option, none, some, List, [], ◌∷◌}
use baste.Text.{Text}
use baste.Schema.{Category}
use baste.Chat.{World, Message}
use baste.Chat.Decimals.{Amount}
use baste.Chat.CatalogReplies.{CatalogReply}
use baste.Chat.Keeps.{KeepsSession, holds, session-update_set, session-set_state, session-done}
use baste.Reseller.Catalog.Linked.{Linked}
use baste.Reseller.Catalog.Linked.Handlers.{catalog_rules}
use baste.Reseller.Catalog.Linked.Writes.{insert_category-Linked, insert_package-Linked}
use baste.Reseller.Catalog.{
  catalog_type_menu_cb, catalog_menu, folders_with_packages, show_each_operator, operators_or_none,
  view_catalog, start_add_operator, receive_operator_name_and_save, pick_operator,
  start_add_subcategory, pick_operator_for_sub, receive_subcategory_title_and_save,
}
use baste.Reseller.Catalog.Products.{
  start_add_package, pick_folder, pick_operator_for_pkg, pick_category, receive_package_name,
  keep_price, pop_price, question_price, accept_price, take_price, receive_price, confirm_price,
  confirm_suspicious_price, edit_suspicious_price, save_product, receive_cost_price_and_save,
}

pub catalog_type_menu_cb-Linked : (user : ℕ) → KeepsSession Linked (catalog_type_menu_cb user)
unfolding catalog_type_menu_cb
catalog_type_menu_cb-Linked user = search catalog_rules depth 40

pub catalog_menu-Linked :
    (user : ℕ) (parts : List Text) → KeepsSession Linked (catalog_menu user parts)
unfolding catalog_menu
catalog_menu-Linked user parts = search catalog_rules depth 40

folders-Linked : (l : List (ℕ × Category)) → KeepsSession Linked (folders_with_packages l)
unfolding folders_with_packages
folders-Linked [] = session-done []
folders-Linked ((i, c) ∷ rest) = let more = folders-Linked rest in search catalog_rules depth 20

pub show_each_operator-Linked :
    (user : ℕ) (l : List (ℕ × Category)) → KeepsSession Linked (show_each_operator user l)
unfolding show_each_operator holds
show_each_operator-Linked user [] = session-done tt
show_each_operator-Linked user ((i, c) ∷ rest) =
    let more = show_each_operator-Linked user rest in
    search (catalog_rules, folders-Linked) depth 20

pub operators_or_none-Linked :
    (user : ℕ) (l : List (ℕ × Category)) → KeepsSession Linked (operators_or_none user l)
unfolding operators_or_none holds
operators_or_none-Linked user [] = search catalog_rules
operators_or_none-Linked user (c ∷ rest) = show_each_operator-Linked user (c ∷ rest)

pub view_catalog-Linked :
    (user : ℕ) (k : ℕ) (parts : List Text) → KeepsSession Linked (view_catalog user k parts)
unfolding view_catalog
view_catalog-Linked user k parts = search (catalog_rules, operators_or_none-Linked) depth 40

pub start_add_operator-Linked :
    (user : ℕ) (parts : List Text) → KeepsSession Linked (start_add_operator user parts)
unfolding start_add_operator holds
start_add_operator-Linked user parts = search (catalog_rules, session-update_set) depth 40

pub receive_operator_name_and_save-Linked :
    (m : Message) (k : ℕ) → KeepsSession Linked (receive_operator_name_and_save m k)
unfolding receive_operator_name_and_save
receive_operator_name_and_save-Linked m k = search (catalog_rules, insert_category-Linked) depth 40

pub pick_operator-Linked :
    (user : ℕ) (question : CatalogReply) (purpose : Text) (t : Text) (l : List (ℕ × Category))
    → KeepsSession Linked (pick_operator user question purpose t l)
unfolding pick_operator holds
pick_operator-Linked user question purpose t [] = search catalog_rules
pick_operator-Linked user question purpose t (c ∷ rest) = search catalog_rules

pub start_add_subcategory-Linked :
    (user : ℕ) (k : ℕ) (parts : List Text)
    → KeepsSession Linked (start_add_subcategory user k parts)
unfolding start_add_subcategory
start_add_subcategory-Linked user k parts = search (catalog_rules, pick_operator-Linked) depth 40

pub pick_operator_for_sub-Linked :
    (user : ℕ) (parts : List Text) → KeepsSession Linked (pick_operator_for_sub user parts)
unfolding pick_operator_for_sub holds
pick_operator_for_sub-Linked user parts = search (catalog_rules, session-update_set) depth 40

pub receive_subcategory_title_and_save-Linked :
    (m : Message) (k : ℕ) → KeepsSession Linked (receive_subcategory_title_and_save m k)
unfolding receive_subcategory_title_and_save
receive_subcategory_title_and_save-Linked m k =
    search (catalog_rules, insert_category-Linked) depth 40

pub start_add_package-Linked :
    (user : ℕ) (k : ℕ) (parts : List Text) → KeepsSession Linked (start_add_package user k parts)
unfolding start_add_package
start_add_package-Linked user k parts = search (catalog_rules, pick_operator-Linked) depth 40

pub pick_folder-Linked :
    (user : ℕ) (t : Text) (i : ℕ) (l : List (ℕ × Category))
    → KeepsSession Linked (pick_folder user t i l)
unfolding pick_folder holds
pick_folder-Linked user t i [] = search catalog_rules depth 20
pick_folder-Linked user t i (c ∷ rest) = search catalog_rules

pub pick_operator_for_pkg-Linked :
    (user : ℕ) (parts : List Text) → KeepsSession Linked (pick_operator_for_pkg user parts)
unfolding pick_operator_for_pkg
pick_operator_for_pkg-Linked user parts = search (catalog_rules, pick_folder-Linked) depth 40

pub pick_category-Linked :
    (user : ℕ) (parts : List Text) → KeepsSession Linked (pick_category user parts)
unfolding pick_category holds
pick_category-Linked user parts = search (catalog_rules, session-update_set) depth 40

pub receive_package_name-Linked : (m : Message) → KeepsSession Linked (receive_package_name m)
unfolding receive_package_name holds
receive_package_name-Linked m = search (catalog_rules, session-update_set) depth 40

keep_price-Linked : (t : Text) (price : Amount) → KeepsSession Linked (keep_price t price)
unfolding keep_price
keep_price-Linked t price = record { at = λ s h. record { db_ok = h.db_ok; is_ready = h.is_ready } }

pop_price-Linked : (t : Text) → KeepsSession Linked (pop_price t)
unfolding pop_price
pop_price-Linked t = record { at = λ s h. record { db_ok = h.db_ok; is_ready = h.is_ready } }

pub question_price-Linked :
    (w : World) (m : Message) (price : Amount) → KeepsSession Linked (question_price w m price)
unfolding question_price holds
question_price-Linked w m price =
    search (catalog_rules, keep_price-Linked, session-set_state) depth 40

pub accept_price-Linked :
    (user : ℕ) (price : Amount) → KeepsSession Linked (accept_price user price)
unfolding accept_price holds
accept_price-Linked user price = search (catalog_rules, session-update_set) depth 40

pub take_price-Linked :
    (w : World) (m : Message) (o : Option Amount) → KeepsSession Linked (take_price w m o)
unfolding take_price holds
take_price-Linked w m none = search catalog_rules
take_price-Linked w m (some price) =
    search (catalog_rules, question_price-Linked, accept_price-Linked) depth 20

pub receive_price-Linked : (w : World) (m : Message) → KeepsSession Linked (receive_price w m)
unfolding receive_price
receive_price-Linked w m = search (catalog_rules, take_price-Linked) depth 40

pub confirm_price-Linked :
    (user : ℕ) (o : Option Amount) → KeepsSession Linked (confirm_price user o)
unfolding confirm_price holds
confirm_price-Linked user none = search catalog_rules
confirm_price-Linked user (some price) = search (catalog_rules, accept_price-Linked) depth 20

pub confirm_suspicious_price-Linked :
    (user : ℕ) (parts : List Text) → KeepsSession Linked (confirm_suspicious_price user parts)
unfolding confirm_suspicious_price
confirm_suspicious_price-Linked user parts =
    search (catalog_rules, pop_price-Linked, confirm_price-Linked) depth 40

pub edit_suspicious_price-Linked :
    (user : ℕ) (parts : List Text) → KeepsSession Linked (edit_suspicious_price user parts)
unfolding edit_suspicious_price holds
edit_suspicious_price-Linked user parts =
    search (catalog_rules, pop_price-Linked, session-set_state) depth 40

pub save_product-Linked :
    (m : Message) (k : ℕ) (o : Option Amount) → KeepsSession Linked (save_product m k o)
unfolding save_product holds
save_product-Linked m k none = search catalog_rules
save_product-Linked m k (some price) = search (catalog_rules, insert_package-Linked) depth 40

pub receive_cost_price_and_save-Linked :
    (w : World) (m : Message) (k : ℕ) → KeepsSession Linked (receive_cost_price_and_save w m k)
unfolding receive_cost_price_and_save
receive_cost_price_and_save-Linked w m k = search (catalog_rules, save_product-Linked) depth 40
