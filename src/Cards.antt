-- ===== src/Cards.antt =====
-- services/payment_methods_service.py: the cards and the merchant code with which a reseller is paid.
pub mod Own
pub mod Format
use baste.Prelude.{
  ℕ, zero, suc, Bool, true, false, ◌&&◌, not, Option, none, some, List, [], ◌∷◌, ◌++◌, ◌==◌,
  if◌then◌else◌, map_option, take,
}
use baste.Text.{Text}
use baste.Table.{find, update, insert, select, select_one, delete_where}
use baste.Schema.{Db, PaymentCard, Reseller}
use baste.Exec.{M, integrity_error, pure, fetch, execute, or_raise, ◌>>=◌, ◌>>◌}

unfoldable pub add_card : ℕ → Text → Text → Option Text → M ℕ
add_card reseller_id card_number holder bank = do
  or_raise (← fetch (λ s. find s.resellers reseller_id)) integrity_error
  card_id ← fetch (λ s. s.payment_cards.next_id)
  execute (λ s. record s {
    payment_cards = insert s.payment_cards (record {
      reseller_id = reseller_id;
      card_number = card_number;
      card_holder_name = holder;
      bank_name = bank;
      is_active = true;
    });
  })
  pure card_id

unfoldable pub list_cards : ℕ → Bool → M (List (ℕ × PaymentCard))
list_cards reseller_id only_active =
    if only_active
    then fetch (λ s. select (λ _ c. c.reseller_id == reseller_id && c.is_active) s.payment_cards)
    else fetch (λ s. select (λ _ c. c.reseller_id == reseller_id) s.payment_cards)

-- The row of the card, if it is one of the reseller's.
unfoldable pub owned : ℕ → Option PaymentCard → Option PaymentCard
owned reseller_id none = none
owned reseller_id (some c) = if c.reseller_id == reseller_id then some c else none

unfoldable pub set_active : ℕ → Bool → Db → Db
set_active card_id active s = record s {
  payment_cards = update s.payment_cards card_id (λ c. record c { is_active = active });
}

unfoldable pub toggle_row : ℕ → Option PaymentCard → M (Option Bool)
toggle_row card_id none = pure none
toggle_row card_id (some c) = do
  execute (set_active card_id (not c.is_active))
  pure (some (not c.is_active))

unfoldable pub toggle_card : ℕ → ℕ → M (Option Bool)
unfolding owned
toggle_card card_id reseller_id = do
  row ← fetch (λ s. owned reseller_id (find s.payment_cards card_id))
  toggle_row card_id row

unfoldable pub remove_row : ℕ → Option PaymentCard → M Bool
remove_row card_id none = pure false
remove_row card_id (some _) = do
  execute (λ s. record s { payment_cards = delete_where (λ k _. k == card_id) s.payment_cards })
  pure true

unfoldable pub remove_card : ℕ → ℕ → M Bool
unfolding owned
remove_card card_id reseller_id = do
  row ← fetch (λ s. owned reseller_id (find s.payment_cards card_id))
  remove_row card_id row

unfoldable pub set_zarinpal_merchant : ℕ → Text → M Unit
set_zarinpal_merchant reseller_id merchant = execute (λ s. record s {
  resellers =
      update s.resellers reseller_id (λ r. record r { zarinpal_merchant_id = some merchant });
})

unfoldable pub merchant_of : Option Reseller → Option Text
merchant_of none = none
merchant_of (some r) = r.zarinpal_merchant_id

unfoldable pub get_zarinpal_merchant : ℕ → M (Option Text)
get_zarinpal_merchant reseller_id = fetch (λ s. merchant_of (find s.resellers reseller_id))

-- `" ".join(card_number[i:i + 4] for i in range(0, len(card_number), 4))`: a blank before every
-- fifth character, where `n` is the number of characters that the group still takes.
group_from : ℕ → Text → Text
group_from n [] = []
group_from zero (c ∷ t) = b' ' ∷ c ∷ group_from 3 t
group_from (suc n) (c ∷ t) = c ∷ group_from n t

unfoldable pub grouped : Text → Text
unfolding group_from
grouped t = group_from 4 t

abbrev pub code_open : Text
code_open = b'<' ∷ b'c' ∷ b'o' ∷ b'd' ∷ b'e' ∷ b'>' ∷ 0x200e ∷ []

abbrev pub code_close : Text
code_close = b'<' ∷ b'/' ∷ b'c' ∷ b'o' ∷ b'd' ∷ b'e' ∷ b'>' ∷ []

unfoldable pub format_card_number : Text → Text
unfolding grouped
format_card_number card_number = code_open ++ (grouped card_number ++ code_close)
