-- ===== src/Customer/Services.antt =====
-- What the handlers of the customer need from the services: that each keeps a property of the
-- database. The services that only read keep every property.
use baste.Prelude.{ℕ, Bool, Option}
use baste.Prelude.Int.{ℤ}
use baste.Text.{Text}
use baste.Schema.{Db, TopupMethod}
use baste.Exec.{execute}
use baste.Exec.Keeps.{Keeps, keeps_rules}
use baste.Orders.{
  Env, get_or_create_customer, create_order, create_order_paid_by_wallet, submit_receipt,
  update_order,
}
use baste.Referral.{register_referral}
use baste.Discounts.{increment_usage, validate_discount_code}
use baste.Charge.{purchase_charge_bulk}
use baste.CustomerWallet.{create_topup_request, attach_topup_receipt, get_wallet_balance}
use baste.Cards.{list_cards, get_zarinpal_merchant}
use baste.ForcedJoin.{MemberStatus, user_has_joined_all, get_forced_channels}
use baste.Chat.{World}
use baste.Customer.Receipt.{set_price}

pub record Services (w : World) (P : Db → Type 0) : Type 0 where
  pub get_or_create : (k user : ℕ) → Keeps P (get_or_create_customer k user)
  pub referral : (k i j : ℕ) → Keeps P (register_referral k i j)
  pub create :
      (env : Env) (k p c : ℕ) (phone : Option Text) → Keeps P (create_order env k p c phone)
  pub pay :
      (env : Env) (k p c : ℕ) (phone : Option Text)
      → Keeps P (create_order_paid_by_wallet env k p c phone)
  pub reprice : (i : ℕ) (price : ℤ) → Keeps P (execute (update_order i (set_price price)))
  pub use_code : (i : ℕ) → Keeps P (increment_usage i)
  pub submit : (i : ℕ) (receipt : Text) → Keeps P (submit_receipt w.column w.max_pending i receipt)
  pub keeps_charges : (k p c n : ℕ) → Keeps P (purchase_charge_bulk w.round_env k p c n)
  pub keeps_topup :
      (k c : ℕ) (amount : ℤ) (method : TopupMethod)
      → Keeps P (create_topup_request k c amount method)
  pub attach : (i : ℕ) (receipt : Text) → Keeps P (attach_topup_receipt i receipt)

module _ {P : Db → Type 0} where
  pub Keeps-joined :
      (answer : Text → Option MemberStatus) (k : ℕ) → Keeps P (user_has_joined_all answer k)
  unfolding user_has_joined_all get_forced_channels
  Keeps-joined answer k = search keeps_rules depth 20

  pub Keeps-validate :
      (normalise : Text → Text) (now k : ℕ) (code : Text)
      → Keeps P (validate_discount_code normalise now k code)
  unfolding validate_discount_code
  Keeps-validate normalise now k code = search keeps_rules depth 20

  pub Keeps-cards : (k : ℕ) (only_active : Bool) → Keeps P (list_cards k only_active)
  unfolding list_cards
  Keeps-cards k only_active = search keeps_rules depth 20

  pub Keeps-merchant : (k : ℕ) → Keeps P (get_zarinpal_merchant k)
  unfolding get_zarinpal_merchant
  Keeps-merchant k = search keeps_rules depth 20

  pub Keeps-balance : (k : ℕ) → Keeps P (get_wallet_balance k)
  unfolding get_wallet_balance
  Keeps-balance k = search keeps_rules depth 20

pub ruleset reading_rules =
    (keeps_rules, Keeps-joined, Keeps-validate, Keeps-cards, Keeps-merchant, Keeps-balance)
