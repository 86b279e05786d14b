-- ===== src/Schema.antt =====
-- The rows and the tables of database/schema.sql, schema_phase3.sql, schema_phase4.sql and the
-- migrations: the columns that the services read or write. Money columns, DECIMAL(14,2), are
-- integers of hundredths; percent columns, DECIMAL(5,2), are integers of hundredths of a percent.
-- DATETIME columns are numbers of seconds.
use baste.Prelude.{ℕ, Bool, Option}
use baste.Prelude.Int.{ℤ}
use baste.Text.{Text}
use baste.Table.{Table}

pub data OrderStatus : Type 0 where
  awaiting_payment awaiting_receipt_review confirmed activated rejected : OrderStatus
  refund_pending refunded failed_insufficient_credit : OrderStatus

pub data OrderType : Type 0 where
  package_order charge_order : OrderType

pub data TransactionType : Type 0 where
  topup commission_deduction refund : TransactionType

pub data TransactionStatus : Type 0 where
  pending confirmed rejected : TransactionStatus

pub data TopupMethod : Type 0 where
  card zarinpal crypto : TopupMethod

pub data WalletTopupStatus : Type 0 where
  pending confirmed confirmed_insufficient_credit rejected : WalletTopupStatus

pub data ReviewStatus : Type 0 where
  pending approved rejected : ReviewStatus

pub data CodeStatus : Type 0 where
  available sold : CodeStatus

pub data ResellerStatus : Type 0 where
  active suspended : ResellerStatus

pub record Reseller : Type 0 where
  pub bot_username : Text
  pub telegram_numeric_id : ℕ
  pub commission_percent : ℤ
  pub wallet_credit_balance : ℤ
  pub credit_limit_negative : ℤ
  pub status : ResellerStatus
  pub order_prefix : Text
  pub support_contact : Option Text
  pub end_order_message : Option Text
  pub zarinpal_merchant_id : Option Text
  pub test_mode_enabled : Bool
  pub test_mode_order_limit : ℕ
  pub test_mode_orders_used : ℕ

pub record Operator : Type 0 where
  pub reseller_id : ℕ
  pub telegram_user_id : ℕ
  pub is_active : Bool

pub record WalletTransaction : Type 0 where
  pub reseller_id : ℕ
  pub kind : TransactionType
  pub amount : ℤ
  pub method : Option TopupMethod
  pub status : TransactionStatus
  pub reference : Option Text

pub data CatalogType : Type 0 where
  package_catalog charge_catalog : CatalogType

pub record Category : Type 0 where
  pub reseller_id : ℕ
  pub operator_name : Text
  pub parent_category_id : Option ℕ
  pub title : Text
  pub catalog_type : CatalogType

pub record Package : Type 0 where
  pub reseller_id : ℕ
  pub category_id : ℕ
  pub name : Text
  pub sale_price : ℤ
  pub cost_price : Option ℤ
  pub is_active : Bool

pub record Customer : Type 0 where
  pub reseller_id : ℕ
  pub telegram_user_id : ℕ
  pub wallet_balance : ℤ

pub record Order : Type 0 where
  pub order_code : Text
  pub reseller_id : ℕ
  pub package_id : ℕ
  pub customer_id : ℕ
  pub status : OrderStatus
  pub order_type : OrderType
  pub receipt_image : Option Text
  pub phone_number : Option Text
  pub package_price : ℤ
  pub commission_amount : ℤ
  pub is_test_order : Bool
  pub paid_from_wallet : Bool
  pub created_at : ℕ
  pub confirmed_at : Option ℕ
  pub activated_at : Option ℕ
  pub delivered_charge_code : Option Text

pub record Dispute : Type 0 where
  pub order_id : ℕ
  pub reseller_id : ℕ
  pub reason : Text
  pub review_status : ReviewStatus
  pub refunded_amount : Option ℤ
  pub reviewed_at : Option ℕ

pub record WalletTopup : Type 0 where
  pub reseller_id : ℕ
  pub customer_id : ℕ
  pub amount : ℤ
  pub method : TopupMethod
  pub receipt_image : Option Text
  pub status : WalletTopupStatus
  pub confirmed_at : Option ℕ

pub record ChargeCode : Type 0 where
  pub reseller_id : ℕ
  pub package_id : ℕ
  pub code : Text
  pub status : CodeStatus
  pub sold_at : Option ℕ
  pub sold_to_customer_id : Option ℕ
  pub sold_order_id : Option ℕ

pub record BlacklistEntry : Type 0 where
  pub telegram_user_id : ℕ
  pub reported_by_reseller_id : Option ℕ
  pub reason : Text
  pub is_global : Bool

pub record DiscountCode : Type 0 where
  pub reseller_id : ℕ
  pub code : Text
  pub percent : ℤ
  pub usage_limit : ℤ
  pub usage_count : ℕ
  pub expires_at : Option ℕ
  pub is_active : Bool

pub record Referral : Type 0 where
  pub reseller_id : ℕ
  pub is_enabled : Bool
  pub profit_percent : ℤ

pub record ReferralLink : Type 0 where
  pub reseller_id : ℕ
  pub referrer_customer_id : ℕ
  pub referred_customer_id : ℕ

pub record PaymentCard : Type 0 where
  pub reseller_id : ℕ
  pub card_number : Text
  pub card_holder_name : Text
  pub bank_name : Option Text
  pub is_active : Bool

pub data SetBy : Type 0 where
  by_admin by_reseller : SetBy

pub record ForcedChannel : Type 0 where
  pub reseller_id : ℕ
  pub channel_id : Text
  pub set_by : SetBy

pub record PriceFloor : Type 0 where
  pub operator_name : Text
  pub min_sane_price : ℤ

pub record Db : Type 0 where
  pub resellers : Table Reseller
  pub operators : Table Operator
  pub wallet_transactions : Table WalletTransaction
  pub categories : Table Category
  pub packages : Table Package
  pub customers : Table Customer
  pub orders : Table Order
  pub disputes : Table Dispute
  pub wallet_topups : Table WalletTopup
  pub charge_codes : Table ChargeCode
  pub blacklist : Table BlacklistEntry
  pub discount_codes : Table DiscountCode
  pub referrals : Table Referral
  pub referral_links : Table ReferralLink
  pub payment_cards : Table PaymentCard
  pub forced_channels : Table ForcedChannel
  pub price_floors : Table PriceFloor
