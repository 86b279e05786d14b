-- ===== src/Reseller/Catalog/Products.antt =====
-- handlers/reseller/catalog.py: the making of a product, whose price the sanity check may question.
use baste.Prelude.{ℕ, Option, none, some, List, [], ◌∷◌, ◌==◌, not, if◌then◌else◌, keep}
use baste.Text.{Text, codes, text_eq}
use baste.Text.Lines.{strip}
use baste.Table.{find}
use baste.Schema.{Category}
use baste.Exec.{fetch}
use baste.SanityCheck.{is_price_suspicious}
use baste.Keyboards.Catalog.{catalog_submenu, category_pick_buttons}
use baste.Keyboards.Review.{sanity_check_confirm_buttons}
use baste.Customer.{subcategories_of}
use baste.Chat.{
  World, Message, H, ◌>>=◌, ◌>>◌, done, call, clear, get_data, set_state, update_data, present,
  in_panel, in_package, PackageState,
}
use baste.Chat.Decimals.{Amount}
use baste.Chat.CatalogReplies.{
  choose_operator_for_product, choose_category, ask_sale_price, invalid_price, not_a_number,
  ask_cost_price, ask_price_again, request_expired, operator_is_empty, ask_package_name,
  product_created, suspicious_price,
}
use baste.Reseller.OrderReview.{acknowledge}
use baste.Reseller.ChargeStock.{part, int_part}
use baste.Reseller.Catalog.Rows.{operators_with, insert_package}
use baste.Reseller.Catalog.{tell, entry, is_package, type_or_package, pick_operator}

unfoldable pub start_add_package : ℕ → ℕ → List Text → H Unit
unfolding part operators_with pick_operator acknowledge
start_add_package user reseller_id parts = do
  catalog_type ← part 2 parts
  operators ← call (fetch (operators_with reseller_id catalog_type))
  pick_operator user choose_operator_for_product (codes "pkg") catalog_type operators
  acknowledge user

unfoldable pub pick_folder : ℕ → Text → ℕ → List (ℕ × Category) → H Unit
unfolding tell
pick_folder user catalog_type operator_id [] = do
  operator ← present (← call (fetch (λ s. find s.categories operator_id)))
  tell user (operator_is_empty operator.operator_name) (some (catalog_submenu catalog_type))
pick_folder user catalog_type operator_id (c ∷ rest) =
    tell user choose_category (some (category_pick_buttons (c ∷ rest) catalog_type))

unfoldable pub pick_operator_for_pkg : ℕ → List Text → H Unit
unfolding part int_part subcategories_of pick_folder acknowledge
pick_operator_for_pkg user parts = do
  catalog_type ← part 2 parts
  operator_id ← int_part 3 parts
  subcategories ← call (fetch (subcategories_of operator_id))
  pick_folder user catalog_type operator_id subcategories
  acknowledge user

unfoldable pub pick_category : ℕ → List Text → H Unit
unfolding tell part int_part is_package acknowledge
pick_category user parts = do
  catalog_type ← part 2 parts
  category_id ← int_part 3 parts
  category ← present (← call (fetch (λ s. find s.categories category_id)))
  update_data (λ d. record d {
    category_id = some category_id;
    operator_name = some category.operator_name;
    catalog_type = some catalog_type;
  })
  set_state (in_panel (in_package PackageState.entering_name))
  tell user (ask_package_name (is_package catalog_type)) none
  acknowledge user

unfoldable pub receive_package_name : Message → H Unit
unfolding tell strip
receive_package_name message = do
  text ← present message.text
  update_data (λ d. record d { package_name = some (strip text) })
  set_state (in_panel (in_package PackageState.entering_price))
  tell message.user ask_sale_price none

-- `Decimal(text.replace(",", "").strip())`; `none` where it raises InvalidOperation.
unfoldable pub price_in : World → Text → Option Amount
unfolding strip keep
price_in w text = w.parse_amount (strip (keep (λ c. not (c == b',')) text))

-- The dicts behind the tokens: `d[token] = value`, and `d.pop(token, None)`.
module _ {A : Type 0} where
  unfoldable pub put_pending : Text → A → List (Text × A) → List (Text × A)
  put_pending token value [] = (token, value) ∷ []
  put_pending token value ((t, v) ∷ rest) =
      if text_eq t token then (t, value) ∷ rest else (t, v) ∷ put_pending token value rest

  unfoldable pub pending_of : Text → List (Text × A) → Option A
  pending_of token [] = none
  pending_of token ((t, v) ∷ rest) = if text_eq t token then some v else pending_of token rest

  unfoldable pub without_pending : Text → List (Text × A) → List (Text × A)
  without_pending token [] = []
  without_pending token ((t, v) ∷ rest) =
      if text_eq t token then rest else (t, v) ∷ without_pending token rest

unfoldable pub keep_price : Text → Amount → H Unit
unfolding put_pending
keep_price token sale_price s =
    done tt (record s { pending_prices = put_pending token sale_price s.pending_prices })

unfoldable pub pop_price : Text → H (Option Amount)
unfolding pending_of without_pending
pop_price token s =
    done (pending_of token s.pending_prices)
      (record s { pending_prices = without_pending token s.pending_prices })

unfoldable pub question_price : World → Message → Amount → H Unit
unfolding tell keep_price
question_price w message sale_price = do
  keep_price w.token sale_price
  set_state (in_panel (in_package PackageState.confirming_suspicious_price))
  tell message.user (suspicious_price sale_price) (some (sanity_check_confirm_buttons w.token))

unfoldable pub accept_price : ℕ → Amount → H Unit
unfolding tell
accept_price user sale_price = do
  update_data (λ d. record d { sale_price = some sale_price })
  set_state (in_panel (in_package PackageState.entering_cost_price))
  tell user ask_cost_price none

unfoldable pub take_price : World → Message → Option Amount → H Unit
unfolding tell entry is_price_suspicious question_price accept_price
take_price w message none = tell message.user invalid_price none
take_price w message (some sale_price) = do
  data_ ← get_data
  operator_name ← entry data_.operator_name
  suspicious ← call (is_price_suspicious operator_name sale_price)
  if suspicious then question_price w message sale_price else accept_price message.user sale_price

unfoldable pub receive_price : World → Message → H Unit
unfolding price_in take_price
receive_price w message = do text ← present message.text; take_price w message (price_in w text)

unfoldable pub confirm_price : ℕ → Option Amount → H Unit
unfolding tell accept_price acknowledge
confirm_price user none = tell user request_expired none
confirm_price user (some sale_price) = do accept_price user sale_price; acknowledge user

unfoldable pub confirm_suspicious_price : ℕ → List Text → H Unit
unfolding part pop_price confirm_price
confirm_suspicious_price user parts = do
  token ← part 1 parts
  pending ← pop_price token
  confirm_price user pending

unfoldable pub edit_suspicious_price : ℕ → List Text → H Unit
unfolding tell part pop_price acknowledge
edit_suspicious_price user parts = do
  token ← part 1 parts
  pop_price token
  set_state (in_panel (in_package PackageState.entering_price))
  tell user ask_price_again none
  acknowledge user

unfoldable pub save_product : Message → ℕ → Option Amount → H Unit
unfolding tell type_or_package entry insert_package is_package
save_product message reseller_id none = tell message.user not_a_number none
save_product message reseller_id (some cost_price) = do
  data_ ← get_data
  let catalog_type = type_or_package data_.catalog_type
  category_id ← entry data_.category_id
  name ← entry data_.package_name
  sale_price ← entry data_.sale_price
  call (insert_package reseller_id category_id name sale_price.stored cost_price.stored)
  tell message.user (product_created (is_package catalog_type))
      (some (catalog_submenu catalog_type))
  clear

unfoldable pub receive_cost_price_and_save : World → Message → ℕ → H Unit
unfolding price_in save_product
receive_cost_price_and_save w message reseller_id = do
  text ← present message.text
  save_product message reseller_id (price_in w text)
