-- ===== src/Customer/Sound.antt =====
-- The handlers of the customer keep a session fine: the conversation has the data of its state, and
-- the database a property that the services keep. First what the three routers share, and the orders.
pub mod Catalog
pub mod Shop
pub mod Wallet
pub mod Messages
use baste.Prelude.{ℕ, arith, ◌≡◌, refl, Bool, true, false, Option, none, some}
use baste.Text.{Text}
use baste.Schema.{Db, Order, DiscountCode}
use baste.Exec.{
  M, Result, ok, err, Error, discount_not_found, discount_expired, discount_exhausted,
  pending_order_limit, order_insufficient_credit, customer_blacklisted, insufficient_balance,
}
use baste.Exec.Keeps.{Keeps}
use baste.Orders.{Env}
use baste.Chat.{World, Message, H, done}
use baste.Chat.Keeps.{
  KeepsSession, session_rules, Fine, holds, ready, session-update_set, session-fail, session-send,
}
use baste.Chat.Replies.{Reply, invalid_discount_code}
use baste.Customer.Services.{Services, reading_rules}
use baste.Customer.{
  back_to_main_menu, customer_cancel, customer_start, refer, referrer_in,
  show_support_from_keyboard,
}
use baste.Customer.Receipt.{
  use_discount, after_validation, apply_discount_code, submit_if, receipt_answer, after_receipt,
  receive_receipt, delay,
}
use baste.Notifications.{
  alert, notify_reseller_insufficient_credit, notify_super_admin_insufficient_credit,
}
use baste.Schema.{Reseller}
use baste.Customer.Purchase.{
  tell_reseller, finish_paid, await_receipt, refuse, after_order, after_payment, buy_package,
  process_purchase, by_receipt, receive_phone_number_contact, buy_for, receive_phone_number_text,
  package_label,
}

module _ {P : Db → Type 0} where
  pub menu-keeps : (m : Message) (k : ℕ) → KeepsSession P (back_to_main_menu m k)
  unfolding back_to_main_menu
  menu-keeps m k = search (session_rules, reading_rules) depth 30

  pub cancel-keeps : (m : Message) (k : ℕ) → KeepsSession P (customer_cancel m k)
  unfolding customer_cancel
  cancel-keeps m k = search (session_rules, reading_rules) depth 30

  pub support-keeps : (m : Message) (k : ℕ) → KeepsSession P (show_support_from_keyboard m k)
  unfolding show_support_from_keyboard
  support-keeps m k = search (session_rules, reading_rules) depth 30

module _ {w : World} {P : Db → Type 0} (services : Services w P) where
  refer-keeps : (k : ℕ) (i : Option ℕ) (j : ℕ) → KeepsSession P (refer k i j)
  unfolding refer
  refer-keeps k none j = search session_rules
  refer-keeps k (some i) j = search (session_rules, services.referral)

  pub start-keeps : (m : Message) (text : Text) (k : ℕ) → KeepsSession P (customer_start w m text k)
  unfolding customer_start
  start-keeps m text k =
      search (session_rules, reading_rules, services.get_or_create, refer-keeps) depth 40

  finish-keeps :
      (m : Message) (k : ℕ) (label phone : Text) (order : ℕ × Order)
      → KeepsSession P (finish_paid m k label phone order)
  unfolding finish_paid tell_reseller
  finish-keeps m k label phone order = search (session_rules, reading_rules, tell) depth 40
    where
      tell : (r : Option Reseller) → KeepsSession P (tell_reseller r order label phone)
      tell none = search session_rules
      tell (some r) = search session_rules

  await-keeps :
      (m : Message) (k : ℕ) (label phone : Text) (order : ℕ × Order)
      → KeepsSession P (await_receipt m k label phone order)
  unfolding await_receipt holds
  await-keeps m k label phone order =
      search (session_rules, reading_rules, session-update_set) depth 40

  refuse-keeps : (m : Message) → KeepsSession P (refuse m)
  unfolding refuse
  refuse-keeps m = search session_rules depth 10

  after_order-keeps :
      (m : Message) (k : ℕ) (label phone : Text) (r : Result (ℕ × Order))
      → KeepsSession P (after_order m k label phone r)
  unfolding after_order
  after_order-keeps m k label phone (ok order) = await-keeps m k label phone order
  after_order-keeps m k label phone (err customer_blacklisted) = refuse-keeps m
  after_order-keeps m k label phone (err e) = session-fail e

  receipt_order-keeps :
      (m : Message) (k p c : ℕ) (phone label : Text)
      → KeepsSession P (by_receipt w m k p c phone label)
  unfolding by_receipt
  receipt_order-keeps m k p c phone label =
      search (session_rules, services.create, after_order-keeps) depth 10

  after_payment-keeps :
      (m : Message) (k p c : ℕ) (phone label : Text) (r : Result (ℕ × Order))
      → KeepsSession P (after_payment w m k p c phone label r)
  unfolding after_payment
  after_payment-keeps m k p c phone label (ok order) = finish-keeps m k label phone order
  after_payment-keeps m k p c phone label (err customer_blacklisted) = refuse-keeps m
  after_payment-keeps m k p c phone label (err insufficient_balance) =
      receipt_order-keeps m k p c phone label
  after_payment-keeps m k p c phone label (err e) = session-fail e

  buy-keeps :
      (m : Message) (k : ℕ) (phone : Text) (p : Option ℕ)
      → KeepsSession P (buy_package w m k phone p)
  unfolding buy_package
  buy-keeps m k phone none = menu-keeps m k
  buy-keeps m k phone (some p) =
      search
        (session_rules, reading_rules, services.get_or_create, services.pay, after_payment-keeps)
        depth 40

  purchase-keeps :
      (m : Message) (k : ℕ) (phone : Text) → KeepsSession P (process_purchase w m k phone)
  unfolding process_purchase
  purchase-keeps m k phone = search (session_rules, buy-keeps) depth 10

  pub contact-keeps :
      (m : Message) (phone : Text) (k : ℕ)
      → KeepsSession P (receive_phone_number_contact w m phone k)
  unfolding receive_phone_number_contact
  contact-keeps m phone k = purchase-keeps m k phone

  buy_for-keeps : (m : Message) (k : ℕ) (phone : Option Text) → KeepsSession P (buy_for w m k phone)
  unfolding buy_for
  buy_for-keeps m k none = search session_rules
  buy_for-keeps m k (some phone) = purchase-keeps m k phone

  pub number-keeps :
      (m : Message) (text : Text) (k : ℕ) → KeepsSession P (receive_phone_number_text w m text k)
  unfolding receive_phone_number_text
  number-keeps m text k = buy_for-keeps m k _

  use_discount-keeps :
      (m : Message) (order : ℕ × Order) (row : ℕ × DiscountCode)
      → KeepsSession P (use_discount m order row)
  unfolding use_discount
  use_discount-keeps m order row =
      search (session_rules, services.reprice, services.use_code) depth 20

  after_validation-keeps :
      (m : Message) (order : Option (ℕ × Order)) (r : Result (ℕ × DiscountCode))
      → KeepsSession P (after_validation m order r)
  unfolding after_validation
  after_validation-keeps m none (ok row) = search session_rules
  after_validation-keeps m (some order) (ok row) = use_discount-keeps m order row
  after_validation-keeps m order (err discount_not_found) = session-send m.user _ none
  after_validation-keeps m order (err discount_expired) = session-send m.user _ none
  after_validation-keeps m order (err discount_exhausted) = session-send m.user _ none
  after_validation-keeps m order (err e) = session-fail e

  pub discount-keeps :
      (m : Message) (text : Text) (k : ℕ) → KeepsSession P (apply_discount_code w m text k)
  unfolding apply_discount_code
  discount-keeps m text k = search (session_rules, reading_rules, after_validation-keeps) depth 30

  submit_if-keeps : (i : Option ℕ) (photo : Text) → KeepsSession P (submit_if w i photo)
  unfolding submit_if
  submit_if-keeps none photo = search session_rules
  submit_if-keeps (some i) photo = search (session_rules, services.submit)

  answer-keeps : (m : Message) (k : ℕ) (reply : Reply) → KeepsSession P (receipt_answer m k reply)
  unfolding receipt_answer
  answer-keeps m k reply = search (session_rules, reading_rules) depth 20

  alert-keeps : (r : Option Reseller) (reply : Reply) → KeepsSession P (alert r reply)
  unfolding alert
  alert-keeps none reply = search session_rules
  alert-keeps (some r) reply = search session_rules

  delayed-keeps :
      (m : Message) (k owner : ℕ) (code : Text) → KeepsSession P (delay w m k owner code)
  unfolding delay notify_reseller_insufficient_credit notify_super_admin_insufficient_credit
  delayed-keeps m k owner code =
      search (session_rules, reading_rules, alert-keeps, answer-keeps) depth 20

  after_receipt-keeps :
      (m : Message) (k : ℕ) (r : Result (Option Order)) → KeepsSession P (after_receipt w m k r)
  unfolding after_receipt
  after_receipt-keeps m k (ok none) = search (session_rules, reading_rules) depth 20
  after_receipt-keeps m k (ok (some order)) = answer-keeps m k _
  after_receipt-keeps m k (err (pending_order_limit count)) = search session_rules
  after_receipt-keeps m k (err (order_insufficient_credit i owner code)) =
      delayed-keeps m k owner code
  after_receipt-keeps m k (err e) = session-fail e

  pub receipt-keeps :
      (m : Message) (photo : Text) (k : ℕ) → KeepsSession P (receive_receipt w m photo k)
  unfolding receive_receipt
  receipt-keeps m photo k = search (session_rules, submit_if-keeps, after_receipt-keeps) depth 10
