-- ===== src/Keyboards/Customer.antt =====
-- utils/keyboards.py: the reply keyboards of the customer's bot.
use baste.Prelude.{Bool, List, [], ◌∷◌, ◌++◌, map, if◌then◌else◌}
use baste.Text.{Text, codes}
use baste.Keyboards.{
  primary, success, danger, Keyboard, reply_keyboard, key, plain_key, contact_key,
}

abbrev pub customer_catalog_button_text : Text
customer_catalog_button_text = codes "🛒 \u{62e}\u{631}\u{6cc}\u{62f} \u{628}\u{633}\u{62a}\u{647}"

abbrev pub customer_support_button_text : Text
customer_support_button_text = codes "📞 \u{67e}\u{634}\u{62a}\u{6cc}\u{628}\u{627}\u{646}\u{6cc}"

abbrev pub customer_wallet_button_text : Text
customer_wallet_button_text = codes "💰 \u{6a9}\u{6cc}\u{641} \u{67e}\u{648}\u{644} \u{645}\u{646}"

abbrev pub customer_back_button_text : Text
customer_back_button_text = codes "⬅\u{fe0f} \u{628}\u{627}\u{632}\u{6af}\u{634}\u{62a}"

abbrev pub customer_back_to_menu_button_text : Text
customer_back_to_menu_button_text =
    codes
      "🏠 \u{628}\u{627}\u{632}\u{6af}\u{634}\u{62a} \u{628}\u{647} \u{645}\u{646}\u{648}\u{6cc} \u{627}\u{635}\u{644}\u{6cc}"

abbrev pub customer_topup_button_text : Text
customer_topup_button_text =
    codes "💳 \u{627}\u{641}\u{632}\u{627}\u{6cc}\u{634} \u{645}\u{648}\u{62c}\u{648}\u{62f}\u{6cc}"

abbrev pub customer_topup_card_button_text : Text
customer_topup_card_button_text =
    codes "💳 \u{6a9}\u{627}\u{631}\u{62a}\u{200c}\u{628}\u{647}\u{200c}\u{6a9}\u{627}\u{631}\u{62a}"

abbrev pub customer_topup_zarinpal_button_text : Text
customer_topup_zarinpal_button_text =
    codes "🌐 \u{632}\u{631}\u{6cc}\u{646}\u{200c}\u{67e}\u{627}\u{644}"

abbrev pub customer_buy_button_text : Text
customer_buy_button_text =
    codes "🛒 \u{62e}\u{631}\u{6cc}\u{62f} \u{627}\u{6cc}\u{646} \u{628}\u{633}\u{62a}\u{647}"

abbrev pub customer_charge_button_text : Text
customer_charge_button_text =
    codes "🔋 \u{62e}\u{631}\u{6cc}\u{62f} \u{6a9}\u{627}\u{631}\u{62a} \u{634}\u{627}\u{631}\u{698}"

abbrev pub customer_buy_charge_button_text : Text
customer_buy_charge_button_text =
    codes "🔋 \u{62e}\u{631}\u{6cc}\u{62f} \u{627}\u{6cc}\u{646} \u{634}\u{627}\u{631}\u{698}"

abbrev pub customer_share_phone_button_text : Text
customer_share_phone_button_text =
    codes
      "📱 \u{627}\u{631}\u{633}\u{627}\u{644} \u{634}\u{645}\u{627}\u{631}\u{647} \u{62a}\u{644}\u{641}\u{646}\u{645}"

unfoldable pub customer_main_reply_keyboard : Bool → Keyboard
customer_main_reply_keyboard has_support_contact = reply_keyboard (
    (((key customer_catalog_button_text primary ∷ [])
        ∷ (key customer_charge_button_text primary ∷ [])
        ∷ (key customer_wallet_button_text success ∷ [])
        ∷ [])
      ++ (if has_support_contact
          then (key customer_support_button_text primary ∷ []) ∷ []
          else [])))

unfoldable pub customer_folder_reply_keyboard : List Text → Text → Keyboard
customer_folder_reply_keyboard item_names back_text =
    reply_keyboard
      ((map (λ name. (key name primary ∷ [])) item_names ++ ((key back_text danger ∷ []) ∷ [])))

unfoldable pub customer_package_detail_keyboard : Keyboard
customer_package_detail_keyboard = reply_keyboard (
    ((key customer_buy_button_text success ∷ [])
      ∷ (key customer_back_button_text danger ∷ [])
      ∷ []))

unfoldable pub customer_charge_detail_keyboard : Keyboard
customer_charge_detail_keyboard = reply_keyboard (
    ((key customer_buy_charge_button_text success ∷ [])
      ∷ (key customer_back_button_text danger ∷ [])
      ∷ []))

unfoldable pub customer_charge_quantity_keyboard : Keyboard
customer_charge_quantity_keyboard =
    reply_keyboard (((plain_key customer_back_button_text ∷ []) ∷ []))

unfoldable pub customer_phone_number_keyboard : Keyboard
customer_phone_number_keyboard = reply_keyboard (
    ((contact_key customer_share_phone_button_text primary ∷ [])
      ∷ (key customer_back_button_text danger ∷ [])
      ∷ []))

unfoldable pub customer_wallet_menu_keyboard : Keyboard
customer_wallet_menu_keyboard = reply_keyboard (
    ((key customer_topup_button_text success ∷ [])
      ∷ (key customer_back_to_menu_button_text danger ∷ [])
      ∷ []))

unfoldable pub customer_topup_method_keyboard : Bool → Bool → Keyboard
customer_topup_method_keyboard has_card has_zarinpal = reply_keyboard (
    ((([] ++ (if has_card then (key customer_topup_card_button_text primary ∷ []) ∷ [] else []))
        ++ (if has_zarinpal
            then (key customer_topup_zarinpal_button_text primary ∷ []) ∷ []
            else []))
      ++ ((key customer_back_button_text danger ∷ []) ∷ [])))
