-- ===== src/Tests/Data.antt =====
-- A small database, and a DECIMAL(14,2) column that rounds half away from zero.
use baste.Prelude.{◌+◌, ◌/◌, ◌≡◌, true, false, none, some, [], ◌∷◌, arith}
use baste.Prelude.Int.{ℤ, pos, pos_part, neg_part, sub_ℕ, ◌≤ℤ◌}
use baste.Text.{Text}
use baste.Money.{DecimalColumn, scale}
use baste.Table.{Table}
use baste.Schema.{
  ResellerStatus, Package, Category, CatalogType, SetBy, Db, Reseller, WalletTransaction,
  TransactionType, TransactionStatus, Customer, Order, OrderStatus, package_order, Dispute,
  ReviewStatus, WalletTopup, WalletTopupStatus, TopupMethod, ChargeCode, CodeStatus, DiscountCode,
  PaymentCard,
}
use baste.Orders.{Env}
use baste.OrderCode.{Moment, Draw}

abbrev pub half_up : ℤ → ℤ
half_up a = sub_ℕ ((pos_part a + 5000) / 10000) ((neg_part a + 5000) / 10000)

pub half_up-scale : (a : ℤ) → half_up (scale a) ≡ a
unfolding scale
half_up-scale a = ground arith

pub half_up_mono : (a b : ℤ) → a ≤ℤ b → half_up a ≤ℤ half_up b
half_up_mono a b h = ground arith

abbrev pub column : DecimalColumn
column = record { store = half_up; store-scale = half_up-scale; store_mono = half_up_mono }

abbrev pub text_a : Text
text_a = b'A' ∷ []

abbrev empty_table {ℓ} : {A : Type ℓ} → Table A
empty_table = record { rows = []; next_id = 1 }

abbrev pub reseller_1 : Reseller
reseller_1 = record {
  bot_username = text_a;
  telegram_numeric_id = 11;
  commission_percent = pos 1000;
  wallet_credit_balance = pos 5000;
  credit_limit_negative = pos 1000;
  status = ResellerStatus.active;
  order_prefix = text_a;
  support_contact = none;
  end_order_message = none;
  zarinpal_merchant_id = none;
  test_mode_enabled = false;
  test_mode_order_limit = 0;
  test_mode_orders_used = 0;
}

abbrev pub reseller_2 : Reseller
reseller_2 = record reseller_1 {
  telegram_numeric_id = 12;
  test_mode_enabled = true;
  test_mode_order_limit = 2;
}

abbrev pub category_1 : Category
category_1 = record {
  reseller_id = 1;
  operator_name = text_a;
  parent_category_id = none;
  title = text_a;
  catalog_type = CatalogType.charge_catalog;
}

abbrev pub category_2 : Category
category_2 = record category_1 { parent_category_id = some 1 }

abbrev pub package_1 : Package
package_1 = record {
  reseller_id = 1;
  category_id = 2;
  name = text_a;
  sale_price = pos 1000;
  cost_price = none;
  is_active = true;
}

abbrev pub customer_1 : Customer
customer_1 = record { reseller_id = 1; telegram_user_id = 77; wallet_balance = pos 3000 }

abbrev pub order_1 : Order
order_1 = record {
  order_code = text_a;
  reseller_id = 1;
  package_id = 1;
  customer_id = 1;
  status = OrderStatus.awaiting_payment;
  order_type = package_order;
  receipt_image = none;
  phone_number = none;
  package_price = pos 1000;
  commission_amount = pos 0;
  is_test_order = false;
  paid_from_wallet = false;
  created_at = 0;
  confirmed_at = none;
  activated_at = none;
  delivered_charge_code = none;
}

abbrev pub order_2 : Order
order_2 = record order_1 {
  order_code = [];
  reseller_id = 2;
  status = OrderStatus.confirmed;
  is_test_order = true;
}

abbrev pub transaction_1 : WalletTransaction
transaction_1 = record {
  reseller_id = 1;
  kind = TransactionType.topup;
  amount = pos 700;
  method = some TopupMethod.card;
  status = TransactionStatus.pending;
  reference = none;
}

abbrev pub topup_1 : WalletTopup
topup_1 = record {
  reseller_id = 1;
  customer_id = 1;
  amount = pos 2000;
  method = TopupMethod.card;
  receipt_image = none;
  status = WalletTopupStatus.pending;
  confirmed_at = none;
}

abbrev pub dispute_1 : Dispute
dispute_1 = record {
  order_id = 1;
  reseller_id = 1;
  reason = [];
  review_status = ReviewStatus.pending;
  refunded_amount = none;
  reviewed_at = none;
}

abbrev pub code_1 : ChargeCode
code_1 = record {
  reseller_id = 1;
  package_id = 1;
  code = text_a;
  status = CodeStatus.available;
  sold_at = none;
  sold_to_customer_id = none;
  sold_order_id = none;
}

abbrev pub discount_1 : DiscountCode
discount_1 = record {
  reseller_id = 1;
  code = text_a;
  percent = pos 1000;
  usage_limit = pos 5;
  usage_count = 4;
  expires_at = some 100;
  is_active = true;
}

abbrev pub card_1 : PaymentCard
card_1 = record {
  reseller_id = 1;
  card_number = text_a;
  card_holder_name = text_a;
  bank_name = none;
  is_active = true;
}

abbrev pub shop : Db
shop = record {
  resellers = record { rows = (1, reseller_1) ∷ (2, reseller_2) ∷ []; next_id = 3 };
  operators = empty_table;
  wallet_transactions = record { rows = (1, transaction_1) ∷ []; next_id = 2 };
  categories = record { rows = (1, category_1) ∷ (2, category_2) ∷ []; next_id = 3 };
  packages = record { rows = (1, package_1) ∷ []; next_id = 2 };
  customers = record { rows = (1, customer_1) ∷ []; next_id = 2 };
  orders = record { rows = (1, order_1) ∷ (2, order_2) ∷ []; next_id = 3 };
  disputes = record { rows = (1, dispute_1) ∷ []; next_id = 2 };
  wallet_topups = record { rows = (1, topup_1) ∷ []; next_id = 2 };
  charge_codes = record { rows = (1, code_1) ∷ (2, code_1) ∷ []; next_id = 3 };
  blacklist = empty_table;
  discount_codes = record { rows = (1, discount_1) ∷ []; next_id = 2 };
  referrals = empty_table;
  referral_links = empty_table;
  payment_cards = record { rows = (1, card_1) ∷ []; next_id = 2 };
  forced_channels = record {
    rows = (1, record { reseller_id = 1; channel_id = text_a; set_by = SetBy.by_reseller }) ∷ [];
    next_id = 2;
  };
  price_floors = empty_table;
}

abbrev pub moment : Moment
moment = record { year = 2024; month = 7; day = 18; hour = 15; minute = 32; second = 9 }

abbrev pub draw : Draw
draw = record { first = 0; second = 27; third = 5 }

abbrev pub env : Env
env = record { now = 50; moment = moment; draw = draw }

-- The next second.
abbrev pub later : Moment
later = record moment { second = 10 }
