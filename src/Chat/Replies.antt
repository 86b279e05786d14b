-- ===== src/Chat/Replies.antt =====
-- The texts that the handlers send, each as a constructor with the values that it shows.
use baste.Prelude.{ℕ, Bool, Option, List}
use baste.Prelude.Int.{ℤ}
use baste.Text.{Text}
use baste.Schema.{PaymentCard}
use baste.Exec.{Error}
use baste.Charge.{Delivery}
use baste.Charge.Sold.{SoldCode}
pub use baste.Chat.Decimals.{Amount}
use baste.Chat.CatalogReplies.{CatalogReply}

-- What a reseller does with the stock of a product.
pub data StockAction : Type 0 where
  add list remove sold : StockAction

pub data Reply : Type 0 where
  not_in_a_process operation_cancelled welcome main_menu : Reply
  support_is : Option Text → Reply
  join_channels : List Text → Reply
  nothing_for_sale choose_operator choose_from_keyboard no_subcategories choose_subcategory : Reply
  no_packages choose_package package_gone : Reply
  package_detail : Text → Text → Text → ℤ → Reply
  ask_phone_number buy_again invalid_phone_number blacklisted : Reply
  paid_from_wallet : Text → Text → Text → Option Text → Reply
  new_paid_order : Text → ℤ → Text → Text → Reply
  pay_by_receipt : Text → Text → Text → ℤ → List PaymentCard → Option Text → Option Text → Reply
  invalid_discount_code : Reply
  discount_applied : ℤ → Reply
  too_many_pending : ℕ → Reply
  receipt_delayed : Reply
  receipt_taken : Text → Reply
  credit_alert : Text → Reply
  credit_alert_admin : ℕ → Text → Reply
  topup_credit_alert : ℕ → Reply
  topup_credit_alert_admin : ℕ → ℕ → Reply
  join_channels_for_charge : List Text → Reply
  no_charges_for_sale no_charges choose_charge charge_gone charge_blacklisted : Reply
  charge_detail : Text → Text → Text → ℤ → Reply
  ask_quantity invalid_quantity : Reply
  total_is : ℕ → ℤ → Reply
  balance_too_low out_of_stock : Reply
  only_available : ℕ → Reply
  charge_delivered : ℕ → ℤ → List Delivery → Option Text → Reply
  charge_sold : ℕ → ℤ → Reply
  wallet_balance : ℤ → Reply
  no_payment_method choose_topup_method ask_amount invalid_amount : Reply
  topup_instructions : Amount → List PaymentCard → Reply
  topup_receipt_taken : Reply
  topup_review : Option ℕ → Option Amount → Text → Reply
  -- The order review of a reseller.
  acknowledged not_permitted : Reply
  nothing_to_review : Reply
  order_to_review : Text → Text → ℤ → ℤ → Option Text → Reply
  order_to_activate : Text → Text → ℤ → Option Text → Reply
  receipt_approved : Option Text → Option Text → Reply
  receipt_rejected : Reply
  end_message : Option Text → Reply
  order_activated : Text → Reply
  topup_refused : Error → Reply
  topup_paid_without_commission topup_paid topup_rejected : Reply
  your_topup_confirmed : ℤ → ℤ → Reply
  ask_reason dispute_opened : Reply
  -- The charge stock of a reseller.
  charge_stock_title no_charge_catalog operator_empty choose_stock_category category_empty : Reply
  choose_stock_product product_gone invalid_codes no_valid_codes : Reply
  choose_product_to : StockAction → Reply
  ask_codes stock_empty nothing_to_remove choose_code_to_remove nothing_sold : Text → Reply
  stock_is : Text → ℕ → List Text → Reply
  sold_are : Text → List SoldCode → Reply
  codes_added codes_cleared : ℕ → Reply
  code_deleted_last code_deleted : Reply
  -- The command of an operator.
  not_for_you nothing_awaits_review : Reply
  order_in_review : Text → ℤ → ℤ → Reply
  -- The payment methods of a reseller.
  payment_methods_title no_cards_yet no_such_card ask_card_number invalid_card_number : Reply
  no_card_to_remove ask_card_holder ask_bank_name merchant_saved : Reply
  card_is : ℕ → Text → Text → Option Text → Bool → Reply
  card_switched : ℕ → Bool → Reply
  card_removed : ℕ → Reply
  card_saved : ℕ → Text → Text → Option Text → Reply
  ask_merchant : Option Text → Reply
  about_catalog : CatalogReply → Reply
