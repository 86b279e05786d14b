-- ===== src/Customer/Sound/Wallet.antt =====
-- handlers/customer/wallet.py: the handlers keep the session fine.
use baste.Prelude.{ℕ, Option, none, some}
use baste.Prelude.Int.{ℤ}
use baste.Text.{Text}
use baste.Schema.{Db, Reseller, TopupMethod}
use baste.Chat.{World, Message}
use baste.Chat.Replies.{Amount}
use baste.Chat.Keeps.{KeepsSession, session_rules, holds, session-update_set, session-set_state}
use baste.Customer.Services.{Services, reading_rules}
use baste.Customer.Topup.{
  show_wallet, start_topup, ask_for_amount, choose_method, cards_to_show, create_topup,
  ask_for_transfer, take_amount, receive_topup_amount, attach_if, tell_topup, receive_topup_receipt,
}

module _ {P : Db → Type 0} where
  pub start_topup-keeps : (m : Message) (k : ℕ) → KeepsSession P (start_topup m k)
  unfolding start_topup holds
  start_topup-keeps m k = search (session_rules, reading_rules, session-set_state) depth 30

  ask-keeps : (m : Message) (method : TopupMethod) → KeepsSession P (ask_for_amount m method)
  unfolding ask_for_amount holds
  ask-keeps m method = search (session_rules, session-update_set) depth 10

  cards-keeps : (k : ℕ) (method : TopupMethod) → KeepsSession P (cards_to_show k method)
  unfolding cards_to_show
  cards-keeps k TopupMethod.card = search (session_rules, reading_rules)
  cards-keeps k _ = search session_rules

  tell-keeps :
      (r : Option Reseller) (i : Option ℕ) (amount : Option Amount) (photo : Text)
      → KeepsSession P (tell_topup r i amount photo)
  unfolding tell_topup
  tell-keeps none i amount photo = search session_rules
  tell-keeps (some r) i amount photo = search session_rules

module _ {w : World} {P : Db → Type 0} (services : Services w P) where
  pub wallet-keeps : (m : Message) (k : ℕ) → KeepsSession P (show_wallet m k)
  unfolding show_wallet
  wallet-keeps m k = search (session_rules, reading_rules, services.get_or_create) depth 20

  pub method-keeps : (m : Message) (k : ℕ) → KeepsSession P (choose_method m k)
  unfolding choose_method
  method-keeps m k = search (session_rules, wallet-keeps, ask-keeps) depth 20

  create-keeps :
      (k c : ℕ) (amount : Amount) (stored : Option ℤ) (method : TopupMethod)
      → KeepsSession P (create_topup k c amount stored method)
  unfolding create_topup
  create-keeps k c amount none method = search session_rules
  create-keeps k c amount (some stored) method = search (session_rules, services.keeps_topup)

  request-keeps :
      (m : Message) (k : ℕ) (amount : Amount) (method : TopupMethod)
      → KeepsSession P (ask_for_transfer m k amount method)
  unfolding ask_for_transfer holds
  request-keeps m k amount method =
      search (session_rules, cards-keeps, services.get_or_create, create-keeps, session-update_set)
        depth 40

  take-keeps :
      (m : Message) (k : ℕ) (amount : Option Amount) → KeepsSession P (take_amount m k amount)
  unfolding take_amount
  take-keeps m k none = search session_rules
  take-keeps m k (some amount) = search (session_rules, request-keeps) depth 20

  pub amount-keeps : (m : Message) (k : ℕ) → KeepsSession P (receive_topup_amount w m k)
  unfolding receive_topup_amount
  amount-keeps m k = search (session_rules, take-keeps) depth 10

  attach-keeps : (i : Option ℕ) (photo : Text) → KeepsSession P (attach_if i photo)
  unfolding attach_if
  attach-keeps none photo = search session_rules
  attach-keeps (some i) photo = search (session_rules, services.attach)

  pub topup_receipt-keeps :
      (m : Message) (photo : Text) (k : ℕ) → KeepsSession P (receive_topup_receipt m photo k)
  unfolding receive_topup_receipt
  topup_receipt-keeps m photo k =
      search (session_rules, reading_rules, attach-keeps, tell-keeps) depth 40
