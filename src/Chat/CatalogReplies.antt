-- ===== src/Chat/CatalogReplies.antt =====
-- The texts of handlers/reseller/catalog.py. A `Bool` at a product says whether it is a package.
use baste.Prelude.{ℕ, Bool, Option, List}
use baste.Prelude.Int.{ℤ}
use baste.Text.{Text}
use baste.Schema.{Package}
use baste.Chat.Decimals.{Amount}

pub data CatalogReply : Type 0 where
  choose_catalog no_operators_yet need_operator choose_parent choose_operator_for_product :
      CatalogReply
  choose_category ask_operator_name ask_sale_price invalid_price not_a_number : CatalogReply
  ask_cost_price ask_price_again request_expired : CatalogReply
  catalog_label manage_catalog : Text → CatalogReply
  operator_contents : Text → List (Text × List (ℕ × Package)) → CatalogReply
  operator_created ask_subcategory_title operator_is_empty : Text → CatalogReply
  subcategory_created : Text → Text → CatalogReply
  ask_package_name product_created : Bool → CatalogReply
  suspicious_price : Amount → CatalogReply
  operator_gone subcategory_gone product_gone : CatalogReply
  operator_detail subcategory_detail : Text → Bool → CatalogReply
  product_detail : Bool → Text → ℤ → Option ℤ → Bool → CatalogReply
  ask_new_operator_name ask_new_title ask_new_price ask_new_cost : CatalogReply
  ask_new_product_name : Bool → CatalogReply
  operator_renamed subcategory_renamed product_renamed : Text → CatalogReply
  price_changed cost_changed : Amount → CatalogReply
  status_changed cancelled folder_was_sold product_was_sold : CatalogReply
  operator_deleted subcategory_deleted product_deleted : CatalogReply
  confirm_operator : ℕ → ℕ → ℕ → CatalogReply
  confirm_subcategory : ℕ → ℕ → CatalogReply
  confirm_product : Option ℕ → CatalogReply
