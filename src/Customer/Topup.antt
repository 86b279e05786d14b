-- ===== src/Customer/Topup.antt =====
-- handlers/customer/wallet.py: the balance, and a request to raise it.
use baste.Prelude.{
  ℕ, Bool, true, false, ◌&&◌, not, Option, none, some, List, [], ◌∷◌, ◌==◌, if◌then◌else◌, map,
}
use baste.Prelude.Int.{ℤ}
use baste.Text.{Text, codes}
use baste.Text.Decimal.{decimal_text}
use baste.Table.{find}
use baste.Schema.{PaymentCard, Reseller, TopupMethod}
use baste.Exec.{data_error, fetch}
use baste.Orders.{get_or_create_customer}
use baste.Cards.{list_cards, get_zarinpal_merchant}
use baste.CustomerWallet.{get_wallet_balance, create_topup_request, attach_topup_receipt}
use baste.Keyboards.Customer.{
  customer_main_reply_keyboard, customer_wallet_menu_keyboard, customer_topup_method_keyboard,
  customer_topup_card_button_text, customer_topup_zarinpal_button_text, customer_back_button_text,
}
use baste.Keyboards.Review.{wallet_topup_review_buttons_for}
use baste.Chat.{
  World, Message, text_is, H, ◌>>=◌, ◌>>◌, done, fail, call, answer, send, clear, get_data,
  set_state, update_data, present, in_wallet, WalletState,
}
use baste.Chat.Replies.{
  Amount, wallet_balance, no_payment_method, choose_topup_method, choose_from_keyboard, ask_amount,
  invalid_amount, topup_instructions, topup_receipt_taken, topup_review,
}
use baste.Customer.{has_support, is_set}

unfoldable pub show_wallet : Message → ℕ → H Unit
show_wallet message reseller_id = do
  clear
  customer ← present (← call (get_or_create_customer reseller_id message.user))
  balance ← call (get_wallet_balance customer.0)
  answer message (wallet_balance balance) (some customer_wallet_menu_keyboard)

unfoldable pub no_cards : List (ℕ × PaymentCard) → Bool
no_cards [] = true
no_cards (_ ∷ _) = false

unfoldable pub start_topup : Message → ℕ → H Unit
unfolding no_cards is_set
start_topup message reseller_id = do
  active_cards ← call (list_cards reseller_id true)
  zarinpal_merchant ← call (get_zarinpal_merchant reseller_id)
  if no_cards active_cards && not (is_set zarinpal_merchant)
      then answer message no_payment_method (some customer_wallet_menu_keyboard)
      else do
        set_state (in_wallet WalletState.choosing_method)
        answer message choose_topup_method (
            some (
              customer_topup_method_keyboard (not (no_cards active_cards))
                (is_set zarinpal_merchant)))

unfoldable pub ask_for_amount : Message → TopupMethod → H Unit
ask_for_amount message method = do
  update_data (λ d. record d { topup_method = some method })
  set_state (in_wallet WalletState.entering_amount)
  answer message ask_amount none

unfoldable pub choose_method : Message → ℕ → H Unit
unfolding show_wallet text_is ask_for_amount
choose_method message reseller_id =
    if text_is customer_back_button_text message
    then (do clear; show_wallet message reseller_id)
    else if text_is customer_topup_card_button_text message
    then ask_for_amount message TopupMethod.card
    else if text_is customer_topup_zarinpal_button_text message
    then ask_for_amount message TopupMethod.zarinpal
    else answer message choose_from_keyboard none

unfoldable pub cards_to_show : ℕ → TopupMethod → H (List (ℕ × PaymentCard))
cards_to_show reseller_id TopupMethod.card = call (list_cards reseller_id true)
cards_to_show reseller_id _ = done []

-- An amount that the column does not take raises in the INSERT.
unfoldable pub create_topup : ℕ → ℕ → Amount → Option ℤ → TopupMethod → H ℕ
create_topup reseller_id customer_id amount none method = fail data_error
create_topup reseller_id customer_id amount (some stored) method =
    call (create_topup_request reseller_id customer_id stored method)

unfoldable pub ask_for_transfer : Message → ℕ → Amount → TopupMethod → H Unit
unfolding cards_to_show create_topup
ask_for_transfer message reseller_id amount method = do
  shown_cards ← cards_to_show reseller_id method
  customer ← present (← call (get_or_create_customer reseller_id message.user))
  topup_id ← create_topup reseller_id customer.0 amount amount.stored method
  update_data (λ d. record d { topup_id = some topup_id; amount = some amount })
  set_state (in_wallet WalletState.uploading_receipt)
  answer message (topup_instructions amount (map (λ c. c.1) shown_cards)) none

-- The amount that was typed, if it is a number, and one above zero.
unfoldable pub take_amount : Message → ℕ → Option Amount → H Unit
unfolding ask_for_transfer
take_amount message reseller_id none = answer message invalid_amount none
take_amount message reseller_id (some amount) =
    if amount.is_positive
    then (do
      data_ ← get_data
      method ← present data_.topup_method
      ask_for_transfer message reseller_id amount method)
    else answer message invalid_amount none

-- `Decimal(text.replace(",", "").strip())` is a parameter; a message without a text has no `replace`.
unfoldable pub receive_topup_amount : World → Message → ℕ → H Unit
unfolding take_amount
receive_topup_amount w message reseller_id = do
  text ← present message.text
  take_amount message reseller_id (w.parse_amount text)

-- An UPDATE of a missing id changes nothing.
unfoldable pub attach_if : Option ℕ → Text → H Unit
attach_if none photo = done tt
attach_if (some topup_id) photo = call (attach_topup_receipt topup_id photo)

-- `f"{topup_id}"`
unfoldable pub id_text : Option ℕ → Text
unfolding decimal_text
id_text none = codes "None"
id_text (some topup_id) = decimal_text topup_id

unfoldable pub tell_topup : Option Reseller → Option ℕ → Option Amount → Text → H Unit
unfolding id_text wallet_topup_review_buttons_for
tell_topup none topup_id amount photo = done tt
tell_topup (some r) topup_id amount photo =
    if r.telegram_numeric_id == 0
    then done tt
    else send r.telegram_numeric_id (topup_review topup_id amount photo)
        (some (wallet_topup_review_buttons_for (id_text topup_id)))

unfoldable pub receive_topup_receipt : Message → Text → ℕ → H Unit
unfolding attach_if tell_topup has_support
receive_topup_receipt message photo reseller_id = do
  data_ ← get_data
  attach_if data_.topup_id photo
  reseller ← call (fetch (λ s. find s.resellers reseller_id))
  clear
  support ← call (fetch (has_support reseller_id))
  answer message topup_receipt_taken (some (customer_main_reply_keyboard support))
  tell_topup reseller data_.topup_id data_.amount photo
