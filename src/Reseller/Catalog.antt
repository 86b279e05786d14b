-- ===== src/Reseller/Catalog.antt =====
-- handlers/reseller/catalog.py: the menus of the two catalogs and the making of their folders. The type
-- of a catalog travels as text in the data of the buttons. An edited message is sent as a new one.
pub mod Rows
pub mod Deletion
pub mod Products
pub mod Manage
pub mod Edits
pub mod Removal
pub mod Filters
pub mod Linked
pub mod Trees
use baste.Prelude.{ℕ, Bool, Option, none, some, List, [], ◌∷◌}
use baste.Text.{Text, codes, text_eq}
use baste.Text.Lines.{strip}
use baste.Table.{find}
use baste.Schema.{Category, Package}
use baste.Exec.{key_error, fetch}
use baste.Keyboards.{Keyboard}
use baste.Keyboards.Catalog.{catalog_type_menu, catalog_submenu, operator_pick_buttons}
use baste.Keyboards.Reseller.{back_to_reseller_menu_button}
use baste.Customer.{subcategories_of}
use baste.Chat.{
  Message, H, ◌>>=◌, ◌>>◌, done, fail, call, send, clear, get_data, set_state, update_data, present,
  in_panel, in_category, CategoryState,
}
use baste.Chat.Replies.{about_catalog}
use baste.Chat.CatalogReplies.{
  CatalogReply, choose_catalog, no_operators_yet, need_operator, choose_parent, ask_operator_name,
  catalog_label, operator_contents, operator_created, ask_subcategory_title, subcategory_created,
}
use baste.Reseller.OrderReview.{acknowledge}
use baste.Reseller.ChargeStock.{part, int_part, packages_in}
use baste.Reseller.Catalog.Rows.{operators_with, insert_category}

unfoldable pub tell : ℕ → CatalogReply → Option Keyboard → H Unit
tell user reply markup = send user (about_catalog reply) markup

-- `data[…]` of a key that may be missing
unfoldable pub entry : {A : Type 0} → Option A → H A
entry none = fail key_error
entry (some a) = done a

unfoldable pub is_package : Text → Bool
unfolding text_eq
is_package t = text_eq t (codes "package")

-- `data.get("catalog_type", "package")`
unfoldable pub type_or_package : Option Text → Text
type_or_package none = codes "package"
type_or_package (some t) = t

unfoldable pub catalog_type_menu_cb : ℕ → H Unit
unfolding tell acknowledge
catalog_type_menu_cb user = do tell user choose_catalog (some catalog_type_menu); acknowledge user

unfoldable pub catalog_menu : ℕ → List Text → H Unit
unfolding tell part acknowledge
catalog_menu user parts = do
  catalog_type ← part 2 parts
  tell user (catalog_label catalog_type) (some (catalog_submenu catalog_type))
  acknowledge user

-- The folders of an operator with what lies in each.
unfoldable pub folders_with_packages : List (ℕ × Category) → H (List (Text × List (ℕ × Package)))
unfolding packages_in
folders_with_packages [] = done []
folders_with_packages ((sub_id, sub) ∷ rest) = do
  packages ← call (fetch (packages_in sub_id))
  more ← folders_with_packages rest
  done ((sub.title, packages) ∷ more)

unfoldable pub show_each_operator : ℕ → List (ℕ × Category) → H Unit
unfolding tell subcategories_of folders_with_packages
show_each_operator user [] = done tt
show_each_operator user ((operator_id, op) ∷ rest) = do
  subcategories ← call (fetch (subcategories_of operator_id))
  contents ← folders_with_packages subcategories
  tell user (operator_contents op.operator_name contents) none
  show_each_operator user rest

unfoldable pub operators_or_none : ℕ → List (ℕ × Category) → H Unit
unfolding tell show_each_operator
operators_or_none user [] = tell user no_operators_yet (some back_to_reseller_menu_button)
operators_or_none user (op ∷ rest) = show_each_operator user (op ∷ rest)

unfoldable pub view_catalog : ℕ → ℕ → List Text → H Unit
unfolding part operators_with operators_or_none acknowledge
view_catalog user reseller_id parts = do
  catalog_type ← part 2 parts
  operators ← call (fetch (operators_with reseller_id catalog_type))
  operators_or_none user operators
  acknowledge user

unfoldable pub start_add_operator : ℕ → List Text → H Unit
unfolding tell part acknowledge
start_add_operator user parts = do
  catalog_type ← part 2 parts
  update_data (λ d. record d { catalog_type = some catalog_type })
  set_state (in_panel (in_category CategoryState.entering_operator_name))
  tell user ask_operator_name none
  acknowledge user

unfoldable pub receive_operator_name_and_save : Message → ℕ → H Unit
unfolding tell type_or_package strip insert_category
receive_operator_name_and_save message reseller_id = do
  data_ ← get_data
  let catalog_type = type_or_package data_.catalog_type
  text ← present message.text
  let operator_name = strip text
  call (insert_category reseller_id operator_name operator_name none catalog_type)
  tell message.user (operator_created operator_name) (some (catalog_submenu catalog_type))
  clear

-- Which operator a folder (`sub`) or a product (`pkg`) is made for.
unfoldable pub pick_operator : ℕ → CatalogReply → Text → Text → List (ℕ × Category) → H Unit
unfolding tell
pick_operator user question purpose catalog_type [] =
    tell user need_operator (some (catalog_submenu catalog_type))
pick_operator user question purpose catalog_type (op ∷ rest) =
    tell user question (some (operator_pick_buttons (op ∷ rest) purpose catalog_type))

unfoldable pub start_add_subcategory : ℕ → ℕ → List Text → H Unit
unfolding part operators_with pick_operator acknowledge
start_add_subcategory user reseller_id parts = do
  catalog_type ← part 2 parts
  operators ← call (fetch (operators_with reseller_id catalog_type))
  pick_operator user choose_parent (codes "sub") catalog_type operators
  acknowledge user

unfoldable pub pick_operator_for_sub : ℕ → List Text → H Unit
unfolding tell part int_part acknowledge
pick_operator_for_sub user parts = do
  catalog_type ← part 2 parts
  operator_id ← int_part 3 parts
  operator ← present (← call (fetch (λ s. find s.categories operator_id)))
  update_data (λ d. record d {
    parent_operator_id = some operator_id;
    operator_name = some operator.operator_name;
    catalog_type = some catalog_type;
  })
  set_state (in_panel (in_category CategoryState.entering_subcategory_title))
  tell user (ask_subcategory_title operator.operator_name) none
  acknowledge user

unfoldable pub receive_subcategory_title_and_save : Message → ℕ → H Unit
unfolding tell type_or_package strip entry insert_category
receive_subcategory_title_and_save message reseller_id = do
  data_ ← get_data
  let catalog_type = type_or_package data_.catalog_type
  text ← present message.text
  let title = strip text
  operator_name ← entry data_.operator_name
  parent_id ← entry data_.parent_operator_id
  call (insert_category reseller_id operator_name title (some parent_id) catalog_type)
  tell message.user (subcategory_created operator_name title) (some (catalog_submenu catalog_type))
  clear
