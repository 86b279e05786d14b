-- ===== src/Keyboards/Admin.antt =====
-- utils/keyboards.py: the menus of the super admin's bot.
use baste.Prelude.{ℕ, [], ◌∷◌, ◌++◌, if◌then◌else◌}
use baste.Text.{Text, codes, text_eq}
use baste.Text.Decimal.{decimal_text}
use baste.Keyboards.{primary, success, danger, Keyboard, inline_keyboard, button}

unfoldable pub admin_main_menu : Keyboard
admin_main_menu = inline_keyboard (
    ((button
          (codes
            "📋 \u{645}\u{62f}\u{6cc}\u{631}\u{6cc}\u{62a} \u{646}\u{645}\u{627}\u{6cc}\u{646}\u{62f}\u{647}\u{200c}\u{647}\u{627}")
          (codes "amenu:resellers") primary
        ∷ [])
      ∷ (button
            (codes
              "💰 \u{6a9}\u{6cc}\u{641}\u{200c}\u{67e}\u{648}\u{644} \u{648} \u{627}\u{633}\u{62a}\u{631}\u{62f}\u{627}\u{62f}")
            (codes "amenu:wallet") primary
          ∷ [])
      ∷ (button
            (codes
              "⚙\u{fe0f} \u{641}\u{6cc}\u{686}\u{631}\u{647}\u{627} \u{648} \u{62a}\u{646}\u{638}\u{6cc}\u{645}\u{627}\u{62a}")
            (codes "amenu:features") primary
          ∷ [])
      ∷ (button
            (codes
              "📊 \u{6af}\u{632}\u{627}\u{631}\u{634} \u{67e}\u{644}\u{62a}\u{641}\u{631}\u{645}")
            (codes "amenu:report") primary
          ∷ [])
      ∷ (button
            (codes
              "🗄 \u{628}\u{6a9}\u{200c}\u{622}\u{67e} \u{648} \u{631}\u{6cc}\u{633}\u{62a}\u{648}\u{631}")
            (codes "amenu:backup") primary
          ∷ [])
      ∷ []))

unfoldable pub back_to_admin_menu_button : Keyboard
back_to_admin_menu_button = inline_keyboard (
    ((button
          (codes
            "⬅\u{fe0f} \u{628}\u{627}\u{632}\u{6af}\u{634}\u{62a} \u{628}\u{647} \u{645}\u{646}\u{648}\u{6cc} \u{627}\u{635}\u{644}\u{6cc}")
          (codes "amenu:home") primary
        ∷ [])
      ∷ []))

unfoldable pub admin_resellers_submenu : Keyboard
admin_resellers_submenu = inline_keyboard (
    ((button
          (codes
            "➕ \u{627}\u{641}\u{632}\u{648}\u{62f}\u{646} \u{646}\u{645}\u{627}\u{6cc}\u{646}\u{62f}\u{647} \u{62c}\u{62f}\u{6cc}\u{62f}")
          (codes "amenu:resellers:add") success
        ∷ [])
      ∷ (button
            (codes
              "📋 \u{644}\u{6cc}\u{633}\u{62a} \u{646}\u{645}\u{627}\u{6cc}\u{646}\u{62f}\u{647}\u{200c}\u{647}\u{627}")
            (codes "amenu:resellers:list") primary
          ∷ [])
      ∷ (button (codes "⬅\u{fe0f} \u{628}\u{627}\u{632}\u{6af}\u{634}\u{62a}") (codes "amenu:home")
            primary
          ∷ [])
      ∷ []))

unfoldable pub reseller_row_buttons : ℕ → Text → Keyboard
reseller_row_buttons reseller_id status = inline_keyboard (
    (((if text_eq status (codes "active")
          then button (codes "⏸ \u{62a}\u{639}\u{644}\u{6cc}\u{642}")
              (codes "reseller_toggle:" ++ decimal_text reseller_id ++ codes ":suspended") danger
          else button
              (codes "▶\u{fe0f} \u{641}\u{639}\u{627}\u{644}\u{200c}\u{633}\u{627}\u{632}\u{6cc}")
              (codes "reseller_toggle:" ++ decimal_text reseller_id ++ codes ":active") success)
        ∷ [])
      ∷ (button
            (codes
              "✏\u{fe0f} \u{62a}\u{63a}\u{6cc}\u{6cc}\u{631} \u{6a9}\u{645}\u{6cc}\u{633}\u{6cc}\u{648}\u{646}")
            (codes "reseller_edit_commission:" ++ decimal_text reseller_id) primary
          ∷ [])
      ∷ []))

unfoldable pub admin_wallet_submenu : Keyboard
admin_wallet_submenu = inline_keyboard (
    ((button
          (codes
            "💳 \u{634}\u{627}\u{631}\u{698}\u{647}\u{627}\u{6cc} \u{62f}\u{631} \u{627}\u{646}\u{62a}\u{638}\u{627}\u{631} \u{62a}\u{623}\u{6cc}\u{6cc}\u{62f}")
          (codes "amenu:wallet:topups") primary
        ∷ [])
      ∷ (button
            (codes
              "🚨 \u{62f}\u{631}\u{62e}\u{648}\u{627}\u{633}\u{62a}\u{200c}\u{647}\u{627}\u{6cc} \u{627}\u{633}\u{62a}\u{631}\u{62f}\u{627}\u{62f}")
            (codes "amenu:wallet:disputes") primary
          ∷ [])
      ∷ (button (codes "⬅\u{fe0f} \u{628}\u{627}\u{632}\u{6af}\u{634}\u{62a}") (codes "amenu:home")
            primary
          ∷ [])
      ∷ []))

unfoldable pub topup_confirm_button : ℕ → Keyboard
topup_confirm_button transaction_id = inline_keyboard (
    ((button (codes "✅ \u{62a}\u{623}\u{6cc}\u{6cc}\u{62f} \u{634}\u{627}\u{631}\u{698}")
          (codes "topup_confirm:" ++ decimal_text transaction_id) success
        ∷ [])
      ∷ []))

unfoldable pub dispute_decision_buttons : ℕ → Keyboard
dispute_decision_buttons dispute_id = inline_keyboard (
    ((button
          (codes
            "✅ \u{62a}\u{623}\u{6cc}\u{6cc}\u{62f} \u{627}\u{633}\u{62a}\u{631}\u{62f}\u{627}\u{62f}")
          (codes "dispute_approve:" ++ decimal_text dispute_id) success
        ∷ button (codes "❌ \u{631}\u{62f} \u{627}\u{633}\u{62a}\u{631}\u{62f}\u{627}\u{62f}")
            (codes "dispute_reject:" ++ decimal_text dispute_id) danger
        ∷ [])
      ∷ []))

unfoldable pub admin_features_submenu : Keyboard
admin_features_submenu = inline_keyboard (
    ((button
          (codes "💎 \u{62a}\u{646}\u{638}\u{6cc}\u{645} \u{631}\u{645}\u{632}\u{627}\u{631}\u{632}")
          (codes "amenu:features:crypto") primary
        ∷ [])
      ∷ (button (codes "🚫 \u{644}\u{6cc}\u{633}\u{62a} \u{633}\u{6cc}\u{627}\u{647}")
            (codes "amenu:features:blacklist") primary
          ∷ [])
      ∷ (button
            (codes
              "📢 \u{627}\u{631}\u{633}\u{627}\u{644} \u{627}\u{637}\u{644}\u{627}\u{639}\u{6cc}\u{647} \u{647}\u{645}\u{6af}\u{627}\u{646}\u{6cc}")
            (codes "amenu:features:broadcast") primary
          ∷ [])
      ∷ (button (codes "⬅\u{fe0f} \u{628}\u{627}\u{632}\u{6af}\u{634}\u{62a}") (codes "amenu:home")
            primary
          ∷ [])
      ∷ []))

unfoldable pub blacklist_add_button : Keyboard
blacklist_add_button = inline_keyboard (
    ((button
          (codes
            "➕ \u{627}\u{641}\u{632}\u{648}\u{62f}\u{646} \u{628}\u{647} \u{644}\u{6cc}\u{633}\u{62a} \u{633}\u{6cc}\u{627}\u{647}")
          (codes "blacklist_add_start") danger
        ∷ [])
      ∷ []))

unfoldable pub admin_backup_submenu : Keyboard
admin_backup_submenu = inline_keyboard (
    ((button
          (codes
            "🗄 \u{6af}\u{631}\u{641}\u{62a}\u{646} \u{628}\u{6a9}\u{200c}\u{622}\u{67e} \u{627}\u{644}\u{627}\u{646}")
          (codes "backup_take") success
        ∷ [])
      ∷ (button
            (codes
              "♻\u{fe0f} \u{634}\u{631}\u{648}\u{639} \u{631}\u{6cc}\u{633}\u{62a}\u{648}\u{631}")
            (codes "backup_restore_start") danger
          ∷ [])
      ∷ (button (codes "⬅\u{fe0f} \u{628}\u{627}\u{632}\u{6af}\u{634}\u{62a}") (codes "amenu:home")
            primary
          ∷ [])
      ∷ []))

unfoldable pub restore_confirm_buttons : Keyboard
restore_confirm_buttons = inline_keyboard (
    ((button
          (codes
            "✅ \u{62a}\u{623}\u{6cc}\u{6cc}\u{62f} \u{646}\u{647}\u{627}\u{6cc}\u{6cc} \u{631}\u{6cc}\u{633}\u{62a}\u{648}\u{631}")
          (codes "restore_confirm") danger
        ∷ button (codes "❌ \u{644}\u{63a}\u{648}") (codes "restore_cancel") primary
        ∷ [])
      ∷ []))
