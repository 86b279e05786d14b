-- ===== src/Customer.antt =====
-- handlers/customer/orders.py: the commands of a customer, and what the three routers of
-- handlers/customer share. `w` is what the handler reads besides the database.
pub mod Browse
pub mod Purchase
pub mod Receipt
pub mod ChargeShop
pub mod Topup
pub mod Dispatch
pub mod Services
pub mod Sound
pub mod Solvent
pub mod Pending
pub mod Bot
pub mod Phone
use baste.Prelude.{
  ℕ, Bool, true, false, ◌&&◌, not, Option, none, some, List, [], ◌∷◌, ◌++◌, map, map_option,
  if◌then◌else◌, is_some, ◌==◌,
}
use baste.Prelude.Int.{ℤ}
use baste.Text.{Text, codes, text_eq}
use baste.Text.Lines.{is_space, lstrip, is_empty}
use baste.Table.{find, select}
use baste.Schema.{Db, Category, CatalogType, Customer, Package}
use baste.Exec.{Result, ok, err, Error, fetch}
use baste.Orders.{get_or_create_customer}
use baste.Referral.{register_referral}
use baste.Keyboards.Customer.{customer_main_reply_keyboard}
use baste.Chat.{
  World, Message, H, ◌>>=◌, ◌>>◌, done, call, answer, clear, get_state, present, Labels, dict_of,
  dict_get, labels_of,
}
use baste.Chat.Replies.{
  Reply, not_in_a_process, operation_cancelled, welcome, main_menu, support_is,
}

-- `bool(text)` of a text that may be missing.
unfoldable pub is_set : Option Text → Bool
is_set none = false
is_set (some t) = not (is_empty t)

unfoldable pub contact_of : ℕ → Db → Option Text
contact_of reseller_id s = elim (find s.resellers reseller_id) [
  | none ↦ none
  | some r ↦ r.support_contact
]

-- `bool(reseller and reseller["support_contact"])`
unfoldable pub has_support : ℕ → Db → Bool
unfolding is_set contact_of
has_support reseller_id s = is_set (contact_of reseller_id s)

unfoldable pub back_to_main_menu : Message → ℕ → H Unit
unfolding has_support
back_to_main_menu message reseller_id = do
  clear
  support ← call (fetch (has_support reseller_id))
  answer message main_menu (some (customer_main_reply_keyboard support))

unfoldable pub customer_cancel : Message → ℕ → H Unit
unfolding has_support
customer_cancel message reseller_id = do
  current ← get_state
  if is_some current
      then (do
        support ← call (fetch (has_support reseller_id))
        clear
        answer message operation_cancelled (some (customer_main_reply_keyboard support)))
      else answer message not_in_a_process none

-- The text behind its first word, as `text.split(maxsplit=1)[1]`.
unfoldable pub skip_word : Text → Text
skip_word [] = []
skip_word (c ∷ t) = elim (is_space c) [ true ↦ c ∷ t | false ↦ skip_word t ]

unfoldable pub second_part : Text → Text
unfolding skip_word lstrip
second_part t = lstrip (skip_word (lstrip t))

unfoldable pub starts_with : Text → Text → Bool
starts_with [] t = true
starts_with (c ∷ p) [] = false
starts_with (c ∷ p) (d ∷ t) = c == d && starts_with p t

unfoldable pub drop_prefix : Text → Text → Text
drop_prefix [] t = t
drop_prefix (c ∷ p) [] = []
drop_prefix (c ∷ p) (d ∷ t) = if c == d then drop_prefix p t else d ∷ t

unfoldable pub referrer_in : World → Text → Option ℕ
unfolding second_part starts_with drop_prefix
referrer_in w text =
    if starts_with (codes "ref_") (second_part text)
    then w.parse_int (drop_prefix (codes "ref_") (second_part text))
    else none

unfoldable pub refer : ℕ → Option ℕ → ℕ → H Unit
refer reseller_id none customer_id = done tt
refer reseller_id (some referrer) customer_id =
    call (register_referral reseller_id referrer customer_id)

unfoldable pub customer_start : World → Message → Text → ℕ → H Unit
unfolding refer referrer_in has_support
customer_start w message text reseller_id = do
  clear
  customer ← present (← call (get_or_create_customer reseller_id message.user))
  refer reseller_id (referrer_in w text) customer.0
  support ← call (fetch (has_support reseller_id))
  answer message welcome (some (customer_main_reply_keyboard support))

unfoldable pub show_support_from_keyboard : Message → ℕ → H Unit
unfolding contact_of
show_support_from_keyboard message reseller_id = do
  contact ← call (fetch (contact_of reseller_id))
  answer message (support_is contact) none

-- The folders at the top of a reseller's catalog, and what lies in a folder.
unfoldable pub operators_of : ℕ → CatalogType → Db → List (ℕ × Category)
operators_of reseller_id kind s =
    select
      (λ _ c.
        c.reseller_id == reseller_id
        && (not (is_some c.parent_category_id) && is_kind kind c.catalog_type))
      s.categories
  where
    is_kind : CatalogType → CatalogType → Bool
    is_kind CatalogType.package_catalog CatalogType.package_catalog = true
    is_kind CatalogType.charge_catalog CatalogType.charge_catalog = true
    is_kind _ _ = false

unfoldable pub lies_in : ℕ → Option ℕ → Bool
lies_in folder none = false
lies_in folder (some k) = k == folder

unfoldable pub subcategories_of : ℕ → Db → List (ℕ × Category)
unfolding lies_in
subcategories_of operator_id s =
    select (λ _ c. lies_in operator_id c.parent_category_id) s.categories

unfoldable pub products_of : ℕ → Db → List (ℕ × Package)
products_of category_id s = select (λ _ p. p.category_id == category_id && p.is_active) s.packages

-- A package with its category: the inner join.
unfoldable pub package_with_category : ℕ → Db → Option (Package × Category)
package_with_category package_id s = elim (find s.packages package_id) [
  | none ↦ none
  | some p ↦ map_option (λ c. (p, c)) (find s.categories p.category_id)
]

-- `{f"{sign} {row[…]}": row["id"] for row in rows}`
unfoldable pub folder_labels : Text → (Category → Text) → List (ℕ × Category) → Labels
unfolding dict_of
folder_labels sign text rows = dict_of [] (map (λ r. (sign ++ b' ' ∷ text r.1, r.0)) rows)

unfoldable pub product_labels : World → Text → List (ℕ × Package) → Labels
unfolding dict_of
product_labels w sign rows = dict_of [] (
    map
      (λ r. (
        sign
            ++ b' '
              ∷ (r.1.name
                  ++ codes " — "
                  ++ w.format_price r.1.sale_price
                  ++ codes " \u{62a}\u{648}\u{645}\u{627}\u{646}"),
        r.0,
      ))
      rows)

unfoldable pub texts_of : Labels → List Text
texts_of d = map (λ e. e.0) d
