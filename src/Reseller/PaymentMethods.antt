-- ===== src/Reseller/PaymentMethods.antt =====
-- handlers/reseller/payment_methods.py: the cards and the merchant code with which customers pay a
-- reseller. An edited message is sent here as a new one.
use baste.Prelude.{
  ℕ, Bool, false, ◌&&◌, ◌||◌, not, Option, none, some, List, [], ◌∷◌, ◌==◌, if◌then◌else◌, length,
  keep,
}
use baste.Text.{Text, codes, text_eq}
use baste.Text.Lines.{strip}
use baste.Schema.{PaymentCard}
use baste.Cards.{
  add_card, list_cards, toggle_card, remove_card, set_zarinpal_merchant, get_zarinpal_merchant,
  format_card_number,
}
use baste.Keyboards.Reseller.{payment_methods_submenu, card_row_buttons}
use baste.Customer.{starts_with}
use baste.Customer.ChargeShop.Quantity.{is_digits}
use baste.Chat.{
  World, Callback, Message, H, ◌>>=◌, ◌>>◌, done, call, send, answer, clear, get_data, set_state,
  update_data, present, in_payment_method, PaymentMethodState,
}
use baste.Chat.Replies.{
  payment_methods_title, no_cards_yet, no_such_card, ask_card_number, invalid_card_number,
  no_card_to_remove, ask_card_holder, ask_bank_name, merchant_saved, card_is, card_switched,
  card_removed, card_saved, ask_merchant,
}
use baste.Reseller.OrderReview.{acknowledge}
use baste.Reseller.ChargeStock.{split_colons, int_part}

unfoldable pub payment_methods_menu : ℕ → H Unit
unfolding acknowledge
payment_methods_menu user = do
  send user payment_methods_title (some payment_methods_submenu)
  acknowledge user

unfoldable pub show_cards : ℕ → List (ℕ × PaymentCard) → H Unit
unfolding format_card_number
show_cards user [] = done tt
show_cards user ((card_id, c) ∷ rest) = do
  send user
      (card_is card_id (format_card_number c.card_number) c.card_holder_name c.bank_name
        c.is_active)
      (some (card_row_buttons card_id c.is_active))
  show_cards user rest

unfoldable pub cards_or_none : ℕ → List (ℕ × PaymentCard) → H Unit
unfolding show_cards
cards_or_none user [] = send user no_cards_yet (some payment_methods_submenu)
cards_or_none user (c ∷ rest) = show_cards user (c ∷ rest)

unfoldable pub list_cards_cb : ℕ → ℕ → H Unit
unfolding cards_or_none acknowledge
list_cards_cb user reseller_id = do
  cards ← call (list_cards reseller_id false)
  cards_or_none user cards
  acknowledge user

unfoldable pub switched : ℕ → ℕ → Option Bool → H Unit
switched user card_id none = send user no_such_card none
switched user card_id (some is_active) = send user (card_switched card_id is_active) none

unfoldable pub toggle_card_cb : ℕ → ℕ → List Text → H Unit
unfolding int_part switched acknowledge
toggle_card_cb user reseller_id parts = do
  card_id ← int_part 2 parts
  new_status ← call (toggle_card card_id reseller_id)
  switched user card_id new_status
  acknowledge user

unfoldable pub remove_card_cb : ℕ → ℕ → List Text → H Unit
unfolding int_part acknowledge
remove_card_cb user reseller_id parts = do
  card_id ← int_part 2 parts
  removed ← call (remove_card card_id reseller_id)
  if removed then send user (card_removed card_id) none else send user no_card_to_remove none
  acknowledge user

unfoldable pub start_add_card : ℕ → H Unit
unfolding acknowledge
start_add_card user = do
  set_state (in_payment_method PaymentMethodState.entering_card_number)
  send user ask_card_number none
  acknowledge user

-- `text.replace("-", "").replace(" ", "").strip()`
unfoldable pub bare_number : Text → Text
unfolding strip keep
bare_number text = strip (keep (λ c. not (c == b'-' || c == b' ')) text)

-- A message without a text has no `replace`.
unfoldable pub receive_card_number : World → Message → H Unit
unfolding bare_number is_digits
receive_card_number w message = do
  text ← present message.text
  let card_number = bare_number text
  if is_digits w.is_digit card_number && length card_number == 16
      then (do
        update_data (λ d. record d { card_number = some card_number })
        set_state (in_payment_method PaymentMethodState.entering_card_holder)
        answer message ask_card_holder none)
      else answer message invalid_card_number none

unfoldable pub receive_card_holder : Message → H Unit
unfolding strip
receive_card_holder message = do
  text ← present message.text
  update_data (λ d. record d { card_holder_name = some (strip text) })
  set_state (in_payment_method PaymentMethodState.entering_bank_name)
  answer message ask_bank_name none

-- A dash is no bank.
unfoldable pub bank_of : Text → Option Text
bank_of text = if text_eq text (codes "-") then none else some text

unfoldable pub receive_bank_name_and_save : Message → ℕ → H Unit
unfolding bank_of strip format_card_number
receive_bank_name_and_save message reseller_id = do
  text ← present message.text
  let bank_name = bank_of (strip text)
  data_ ← get_data
  card_number ← present data_.card_number
  card_holder_name ← present data_.card_holder_name
  card_id ← call (add_card reseller_id card_number card_holder_name bank_name)
  answer message (card_saved card_id (format_card_number card_number) card_holder_name bank_name)
      (some payment_methods_submenu)
  clear

unfoldable pub show_zarinpal : ℕ → ℕ → H Unit
unfolding acknowledge
show_zarinpal user reseller_id = do
  merchant_id ← call (get_zarinpal_merchant reseller_id)
  set_state (in_payment_method PaymentMethodState.entering_zarinpal_merchant)
  send user (ask_merchant merchant_id) none
  acknowledge user

unfoldable pub receive_zarinpal_merchant : Message → ℕ → H Unit
unfolding strip
receive_zarinpal_merchant message reseller_id = do
  text ← present message.text
  call (set_zarinpal_merchant reseller_id (strip text))
  answer message merchant_saved (some payment_methods_submenu)
  clear

-- The first filter that matches.
unfoldable pub payment_callback : ℕ → Callback → H Unit
unfolding split_colons text_eq starts_with
payment_callback reseller_id callback =
    if text_eq callback.data_ (codes "rmenu:payment_methods")
    then payment_methods_menu callback.user
    else if text_eq callback.data_ (codes "pm:list_cards")
    then list_cards_cb callback.user reseller_id
    else if starts_with (codes "pm:toggle_card:") callback.data_
    then toggle_card_cb callback.user reseller_id (split_colons callback.data_)
    else if starts_with (codes "pm:remove_card:") callback.data_
    then remove_card_cb callback.user reseller_id (split_colons callback.data_)
    else if text_eq callback.data_ (codes "pm:add_card")
    then start_add_card callback.user
    else if text_eq callback.data_ (codes "pm:set_zarinpal")
    then show_zarinpal callback.user reseller_id
    else done tt
