-- ===== src/Customer/Sound/Shop/Quantity.antt =====
-- handlers/customer/charge.py: the purchase keeps the session fine.
use baste.Prelude.{ℕ, Option, none, some}
use baste.Prelude.Int.{ℤ}
use baste.Schema.{Db, Package, Reseller}
use baste.Exec.{Result, ok, err, customer_blacklisted, insufficient_balance, out_of_stock}
use baste.Charge.{BulkDelivery}
use baste.Chat.{World, Message}
use baste.Chat.Keeps.{KeepsSession, session_rules, session-send, session-fail}
use baste.Customer.Services.{Services, reading_rules}
use baste.Customer.Sound.{menu-keeps}
use baste.Customer.ChargeShop.Quantity.{
  tell_sale, hand_over, sold_out, after_bulk, buy_charges, order_quantity, quantity_for,
  typed_quantity, handle_charge_quantity_input,
}

module _ {P : Db → Type 0} where
  tell-keeps : (r : Option Reseller) (n : ℕ) (total : ℤ) → KeepsSession P (tell_sale r n total)
  unfolding tell_sale
  tell-keeps none n total = search session_rules
  tell-keeps (some r) n total = search session_rules

  hand_over-keeps :
      (m : Message) (k n : ℕ) (result : BulkDelivery) → KeepsSession P (hand_over m k n result)
  unfolding hand_over
  hand_over-keeps m k n result = search (session_rules, reading_rules, tell-keeps) depth 30

  sold_out-keeps : (m : Message) (n : Option ℕ) → KeepsSession P (sold_out m n)
  unfolding sold_out
  sold_out-keeps m none = search session_rules
  sold_out-keeps m (some n) = search session_rules

  after_bulk-keeps :
      (m : Message) (k n : ℕ) (r : Result BulkDelivery) → KeepsSession P (after_bulk m k n r)
  unfolding after_bulk
  after_bulk-keeps m k n (ok result) = hand_over-keeps m k n result
  after_bulk-keeps m k n (err customer_blacklisted) = search session_rules depth 10
  after_bulk-keeps m k n (err insufficient_balance) = session-send m.user _ none
  after_bulk-keeps m k n (err (out_of_stock available)) = sold_out-keeps m available
  after_bulk-keeps m k n (err e) = session-fail e

module _ {w : World} {P : Db → Type 0} (services : Services w P) where
  buy-keeps :
      (m : Message) (k i n : ℕ) (row : Option Package) → KeepsSession P (buy_charges w m k i n row)
  unfolding buy_charges
  buy-keeps m k i n none = search (session_rules, menu-keeps) depth 10
  buy-keeps m k i n (some row) =
      search (session_rules, services.get_or_create, services.keeps_charges, after_bulk-keeps) depth
        20

  order-keeps :
      (m : Message) (k i : ℕ) (n : Option (Option ℕ)) → KeepsSession P (order_quantity w m k i n)
  unfolding order_quantity
  order-keeps m k i none = search session_rules
  order-keeps m k i (some none) = search session_rules
  order-keeps m k i (some (some n)) = search (session_rules, reading_rules, buy-keeps) depth 20

  quantity_for-keeps : (m : Message) (k : ℕ) (i : Option ℕ) → KeepsSession P (quantity_for w m k i)
  unfolding quantity_for
  quantity_for-keeps m k none = menu-keeps m k
  quantity_for-keeps m k (some i) = order-keeps m k i (typed_quantity w m.text)

  pub quantity-keeps : (m : Message) (k : ℕ) → KeepsSession P (handle_charge_quantity_input w m k)
  unfolding handle_charge_quantity_input
  quantity-keeps m k = search (session_rules, quantity_for-keeps) depth 10
