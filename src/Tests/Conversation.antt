-- ===== src/Tests/Conversation.antt =====
-- The conversations with a bot: the theorems at the small database, and a purchase.
use baste.Prelude.{
  length, keep, true, ℕ, ◌-◌, ◌&&◌, ◌≡◌, refl, Bool, none, some, List, [], ◌∷◌, leb, arith,
  if◌then◌else◌,
}
use baste.Prelude.Int.{pos, ◌≤ℤ◌}
use baste.Text.{Text, codes}
use baste.Text.Decimal.{int_of}
use baste.Table.{find, count_where}
use baste.Schema.{Customer}
use baste.ForcedJoin.{MemberStatus}
use baste.Orders.{pending_orders, is_awaiting_review}
use baste.Orders.Pending.{Capped}
use baste.Chat.{World, Message, no_data}
use baste.Chat.Keeps.{ready}
use baste.Keyboards.Customer.{customer_charge_button_text, customer_buy_charge_button_text}
use baste.Customer.Bot.{Bot, Sound, serve_messages, serve_messages-Solvent, serve_messages-Capped}
use baste.Customer.Solvent.{Solvent}
use baste.Customer.{starts_with}
use baste.Customer.Purchase.{normalize_phone_number}
use baste.Customer.ChargeShop.Quantity.{only_digits}
use baste.Customer.Phone.{normalize_phone_number_lem}
use baste.Charge.{clean_lines}
use baste.Charge.Lines.{firsts, stripped_lines, clean_lines-firsts}
use baste.Tests.Data.{shop, column, env, text_a}

abbrev pub ascii_digit : ℕ → Bool
ascii_digit c = leb b'0' c && leb c b'9'

abbrev pub world_1 : World
world_1 = record {
  env = env;
  round_env = λ n. env;
  datetime_now = 50;
  get_chat_member = λ c. some MemberStatus.member;
  column = column;
  max_pending = 3;
  super_admin_telegram_id = 1;
  is_digit = ascii_digit;
  digit_value = λ c. if ascii_digit c then some (c - b'0') else none;
  parse_int = int_of;
  strip_upper = λ t. t;
  parse_amount = λ t. none;
  format_price = λ p. text_a;
  token = text_a;
}

abbrev typed : Text → Message
typed t = record { user = 77; text = some t; contact = none; photo = none }

abbrev bot_1 : Bot
bot_1 = record { db = shop; chats = λ u. (none, no_data); sent = [] }

-- A purchase of one charge, from the button of the main menu.
abbrev purchase : List Message
purchase =
    typed customer_charge_button_text
    ∷ typed (codes "📁 A")
    ∷ typed (codes "📂 A")
    ∷ typed (codes "🔋 A — A \u{62a}\u{648}\u{645}\u{627}\u{646}")
    ∷ typed customer_buy_charge_button_text
    ∷ typed (codes "1")
    ∷ []

bot_1-Sound : Sound Solvent bot_1
unfolding ready
bot_1-Sound = record { db_ok = record { at_id = λ j c e. solvent j c e }; chats_ready = λ u. refl }
  where
    solvent : (j : ℕ) (c : Customer) → find shop.customers j ≡ some c → pos 0 ≤ℤ c.wallet_balance
    solvent j c e = unfold find in ground arith

serve_messages-Solvent_example : Sound Solvent (serve_messages (λ n. world_1) 1 0 purchase bot_1)
serve_messages-Solvent_example =
    serve_messages-Solvent (λ n. world_1) 1 0 purchase bot_1 bot_1-Sound

bot_1-Capped : Sound (Capped 3) bot_1
unfolding ready pending_orders count_where is_awaiting_review
bot_1-Capped = record {
  db_ok = record { at_customer = λ c. ground arith };
  chats_ready = λ u. refl;
}

serve_messages-Capped_example : Sound (Capped 3) (serve_messages (λ n. world_1) 1 0 purchase bot_1)
serve_messages-Capped_example =
    serve_messages-Capped 3 (λ n. world_1) 1 0 purchase bot_1 (λ i. refl) bot_1-Capped

-- As a customer may type it.
abbrev typed_phone : Text
typed_phone = codes "+98 912 123 4567"

abbrev plain_phone : Text
plain_phone = codes "09121234567"

typed_phone_normal : normalize_phone_number ascii_digit typed_phone ≡ some plain_phone
unfolding normalize_phone_number keep
typed_phone_normal = refl

normalize_phone_number_lem_example :
    (length plain_phone ≡ 11)
    × (starts_with (codes "09") plain_phone ≡ true)
    × (only_digits ascii_digit plain_phone ≡ true)
    × (normalize_phone_number ascii_digit plain_phone ≡ some plain_phone)
normalize_phone_number_lem_example =
    normalize_phone_number_lem ascii_digit typed_phone plain_phone refl typed_phone_normal

clean_lines-firsts_example :
    clean_lines [] (codes " A" ∷ [] ∷ codes "B" ∷ codes "A " ∷ [])
    ≡ firsts (stripped_lines (codes " A" ∷ [] ∷ codes "B" ∷ codes "A " ∷ []))
clean_lines-firsts_example = clean_lines-firsts (codes " A" ∷ [] ∷ codes "B" ∷ codes "A " ∷ [])
