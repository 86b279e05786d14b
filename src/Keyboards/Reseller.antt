-- ===== src/Keyboards/Reseller.antt =====
-- utils/keyboards.py: the menus of the reseller's panel.
use baste.Prelude.{ℕ, Bool, [], ◌∷◌, ◌++◌, if◌then◌else◌}
use baste.Text.{codes}
use baste.Text.Decimal.{decimal_text}
use baste.Keyboards.{primary, success, danger, Keyboard, inline_keyboard, button}

unfoldable pub reseller_main_menu : Keyboard
reseller_main_menu = inline_keyboard (
    ((button (codes "📦 \u{6a9}\u{627}\u{62a}\u{627}\u{644}\u{648}\u{6af}") (codes "rmenu:catalog")
          primary
        ∷ button (codes "🧾 \u{633}\u{641}\u{627}\u{631}\u{634}\u{200c}\u{647}\u{627}")
            (codes "rmenu:orders") primary
        ∷ [])
      ∷ (button
            (codes
              "💰 \u{6a9}\u{6cc}\u{641}\u{200c}\u{67e}\u{648}\u{644} \u{6a9}\u{645}\u{6cc}\u{633}\u{6cc}\u{648}\u{646}")
            (codes "rmenu:wallet") primary
          ∷ button
              (codes
                "💳 \u{631}\u{648}\u{634} \u{62f}\u{631}\u{6cc}\u{627}\u{641}\u{62a} \u{648}\u{62c}\u{647}")
              (codes "rmenu:payment_methods") primary
          ∷ [])
      ∷ (button (codes "⚙\u{fe0f} \u{62a}\u{646}\u{638}\u{6cc}\u{645}\u{627}\u{62a}")
            (codes "rmenu:settings") primary
          ∷ button (codes "📊 \u{6af}\u{632}\u{627}\u{631}\u{634} \u{641}\u{631}\u{648}\u{634}")
              (codes "rmenu:reports") primary
          ∷ [])
      ∷ (button
            (codes
              "👥 \u{622}\u{645}\u{627}\u{631} \u{645}\u{634}\u{62a}\u{631}\u{6cc}\u{627}\u{646}")
            (codes "rmenu:stats") primary
          ∷ button
              (codes "🎫 \u{645}\u{62f}\u{6cc}\u{631}\u{6cc}\u{62a} \u{634}\u{627}\u{631}\u{698}")
              (codes "rmenu:charge_stock") primary
          ∷ [])
      ∷ []))

unfoldable pub back_to_reseller_menu_button : Keyboard
back_to_reseller_menu_button = inline_keyboard (
    ((button
          (codes
            "⬅\u{fe0f} \u{628}\u{627}\u{632}\u{6af}\u{634}\u{62a} \u{628}\u{647} \u{645}\u{646}\u{648}\u{6cc} \u{627}\u{635}\u{644}\u{6cc}")
          (codes "rmenu:home") primary
        ∷ [])
      ∷ []))

unfoldable pub orders_refresh_button : Keyboard
orders_refresh_button = inline_keyboard (
    ((button
          (codes
            "🔄 \u{628}\u{631}\u{648}\u{632}\u{631}\u{633}\u{627}\u{646}\u{6cc} \u{644}\u{6cc}\u{633}\u{62a}")
          (codes "rmenu:orders") primary
        ∷ [])
      ∷ (button (codes "⬅\u{fe0f} \u{628}\u{627}\u{632}\u{6af}\u{634}\u{62a}") (codes "rmenu:home")
            primary
          ∷ [])
      ∷ []))

unfoldable pub wallet_submenu : Keyboard
wallet_submenu = inline_keyboard (
    ((button
          (codes
            "💳 \u{627}\u{641}\u{632}\u{627}\u{6cc}\u{634} \u{628}\u{627} \u{6a9}\u{627}\u{631}\u{62a}\u{200c}\u{628}\u{647}\u{200c}\u{6a9}\u{627}\u{631}\u{62a}")
          (codes "wallet:topup_card") success
        ∷ [])
      ∷ (button
            (codes
              "🌐 \u{627}\u{641}\u{632}\u{627}\u{6cc}\u{634} \u{628}\u{627} \u{632}\u{631}\u{6cc}\u{646}\u{200c}\u{67e}\u{627}\u{644}")
            (codes "wallet:topup_zarinpal") success
          ∷ [])
      ∷ (button
            (codes
              "💎 \u{627}\u{641}\u{632}\u{627}\u{6cc}\u{634} \u{628}\u{627} \u{631}\u{645}\u{632}\u{627}\u{631}\u{632}")
            (codes "wallet:topup_crypto") success
          ∷ [])
      ∷ (button (codes "⬅\u{fe0f} \u{628}\u{627}\u{632}\u{6af}\u{634}\u{62a}") (codes "rmenu:home")
            primary
          ∷ [])
      ∷ []))

unfoldable pub payment_methods_submenu : Keyboard
payment_methods_submenu = inline_keyboard (
    ((button (codes "📋 \u{6a9}\u{627}\u{631}\u{62a}\u{200c}\u{647}\u{627}\u{6cc} \u{645}\u{646}")
          (codes "pm:list_cards") primary
        ∷ [])
      ∷ (button (codes "➕ \u{627}\u{641}\u{632}\u{648}\u{62f}\u{646} \u{6a9}\u{627}\u{631}\u{62a}")
            (codes "pm:add_card") success
          ∷ [])
      ∷ (button
            (codes
              "🌐 \u{62a}\u{646}\u{638}\u{6cc}\u{645} \u{632}\u{631}\u{6cc}\u{646}\u{200c}\u{67e}\u{627}\u{644} \u{634}\u{62e}\u{635}\u{6cc}")
            (codes "pm:set_zarinpal") primary
          ∷ [])
      ∷ (button (codes "⬅\u{fe0f} \u{628}\u{627}\u{632}\u{6af}\u{634}\u{62a}") (codes "rmenu:home")
            primary
          ∷ [])
      ∷ []))

unfoldable pub card_row_buttons : ℕ → Bool → Keyboard
card_row_buttons card_id is_active = inline_keyboard (
    ((button
          (if is_active
            then codes
                "⛔\u{fe0f} \u{63a}\u{6cc}\u{631}\u{641}\u{639}\u{627}\u{644} \u{6a9}\u{631}\u{62f}\u{646}"
            else codes "✅ \u{641}\u{639}\u{627}\u{644} \u{6a9}\u{631}\u{62f}\u{646}")
          (codes "pm:toggle_card:" ++ decimal_text card_id) (if is_active then danger else success)
        ∷ button (codes "🗑 \u{62d}\u{630}\u{641}") (codes "pm:remove_card:" ++ decimal_text card_id)
            danger
        ∷ [])
      ∷ []))

unfoldable pub settings_submenu : Bool → Keyboard
settings_submenu referral_enabled = inline_keyboard (
    ((button
          (if referral_enabled
            then codes
                "🔴 \u{63a}\u{6cc}\u{631}\u{641}\u{639}\u{627}\u{644} \u{6a9}\u{631}\u{62f}\u{646} \u{631}\u{641}\u{631}\u{627}\u{644}"
            else codes
                "🟢 \u{641}\u{639}\u{627}\u{644} \u{6a9}\u{631}\u{62f}\u{646} \u{631}\u{641}\u{631}\u{627}\u{644}")
          (codes "settings:referral_set:" ++ (if referral_enabled then codes "off" else codes "on"))
          primary
        ∷ [])
      ∷ (button
            (codes
              "🔢 \u{62a}\u{646}\u{638}\u{6cc}\u{645} \u{62f}\u{631}\u{635}\u{62f} \u{633}\u{648}\u{62f} \u{631}\u{641}\u{631}\u{627}\u{644}")
            (codes "settings:referral_percent") primary
          ∷ [])
      ∷ (button
            (codes
              "📢 \u{627}\u{641}\u{632}\u{648}\u{62f}\u{646} \u{6a9}\u{627}\u{646}\u{627}\u{644} \u{62c}\u{648}\u{6cc}\u{646} \u{627}\u{62c}\u{628}\u{627}\u{631}\u{6cc}")
            (codes "settings:add_channel") primary
          ∷ [])
      ∷ (button
            (codes
              "🏷 \u{627}\u{641}\u{632}\u{648}\u{62f}\u{646} \u{6a9}\u{62f} \u{62a}\u{62e}\u{641}\u{6cc}\u{641}")
            (codes "settings:add_discount") success
          ∷ [])
      ∷ (button
            (codes
              "📞 \u{62b}\u{628}\u{62a} \u{622}\u{6cc}\u{62f}\u{6cc} \u{67e}\u{634}\u{62a}\u{6cc}\u{628}\u{627}\u{646}\u{6cc}")
            (codes "settings:set_support_contact") primary
          ∷ [])
      ∷ (button (codes "⬅\u{fe0f} \u{628}\u{627}\u{632}\u{6af}\u{634}\u{62a}") (codes "rmenu:home")
            primary
          ∷ [])
      ∷ []))

unfoldable pub reports_submenu : Keyboard
reports_submenu = inline_keyboard (
    ((button
          (codes
            "📄 \u{62e}\u{631}\u{648}\u{62c}\u{6cc} \u{627}\u{6a9}\u{633}\u{644} ۳۰ \u{631}\u{648}\u{632} \u{627}\u{62e}\u{6cc}\u{631}")
          (codes "reports:excel") primary
        ∷ [])
      ∷ (button (codes "⬅\u{fe0f} \u{628}\u{627}\u{632}\u{6af}\u{634}\u{62a}") (codes "rmenu:home")
            primary
          ∷ [])
      ∷ []))
