-- ===== src/Keyboards/Review.antt =====
-- utils/keyboards.py: the buttons under orders, receipts and top-ups.
use baste.Prelude.{ℕ, [], ◌∷◌, ◌++◌}
use baste.Text.{Text, codes}
use baste.Text.Decimal.{decimal_text}
use baste.Keyboards.{primary, success, danger, Keyboard, inline_keyboard, button}

unfoldable pub catalog_button : Keyboard
catalog_button = inline_keyboard (
    ((button
          (codes
            "🛍 \u{645}\u{634}\u{627}\u{647}\u{62f}\u{647} \u{6a9}\u{627}\u{62a}\u{627}\u{644}\u{648}\u{6af}")
          (codes "show_catalog") primary
        ∷ [])
      ∷ []))

unfoldable pub topup_button : Keyboard
topup_button = inline_keyboard (
    ((button
          (codes
            "💳 \u{627}\u{641}\u{632}\u{627}\u{6cc}\u{634} \u{645}\u{648}\u{62c}\u{648}\u{62f}\u{6cc}")
          (codes "topup") primary
        ∷ [])
      ∷ []))

unfoldable pub package_purchase_button : ℕ → Keyboard
package_purchase_button package_id = inline_keyboard (
    ((button (codes "🛒 \u{62e}\u{631}\u{6cc}\u{62f} \u{628}\u{633}\u{62a}\u{647}")
          (codes "buy:" ++ decimal_text package_id) success
        ∷ [])
      ∷ []))

unfoldable pub order_review_buttons : ℕ → Keyboard
order_review_buttons order_id = inline_keyboard (
    ((button (codes "✅ \u{62a}\u{623}\u{6cc}\u{6cc}\u{62f} \u{631}\u{633}\u{6cc}\u{62f}")
          (codes "approve_receipt:" ++ decimal_text order_id) success
        ∷ button (codes "❌ \u{631}\u{62f} \u{631}\u{633}\u{6cc}\u{62f} (\u{641}\u{6cc}\u{6a9})")
            (codes "reject_receipt:" ++ decimal_text order_id) danger
        ∷ [])
      ∷ []))

unfoldable pub activate_order_button : ℕ → Keyboard
activate_order_button order_id = inline_keyboard (
    ((button (codes "📦 \u{641}\u{639}\u{627}\u{644} \u{634}\u{62f}")
          (codes "activate_order:" ++ decimal_text order_id) success
        ∷ [])
      ∷ []))

unfoldable pub sanity_check_confirm_buttons : Text → Keyboard
sanity_check_confirm_buttons pending_token = inline_keyboard (
    ((button
          (codes
            "✅ \u{628}\u{644}\u{647}، \u{642}\u{6cc}\u{645}\u{62a} \u{62f}\u{631}\u{633}\u{62a} \u{627}\u{633}\u{62a}")
          (codes "price_confirm:" ++ pending_token) success
        ∷ button
            (codes "✏\u{fe0f} \u{627}\u{635}\u{644}\u{627}\u{62d} \u{642}\u{6cc}\u{645}\u{62a}")
            (codes "price_edit:" ++ pending_token) danger
        ∷ [])
      ∷ []))

-- `shown` is the id as the f-string shows it.
unfoldable pub wallet_topup_review_buttons_for : Text → Keyboard
wallet_topup_review_buttons_for shown = inline_keyboard (
    ((button
          (codes
            "✅ \u{62a}\u{623}\u{6cc}\u{6cc}\u{62f} \u{648} \u{634}\u{627}\u{631}\u{698} \u{6a9}\u{6cc}\u{641}\u{200c}\u{67e}\u{648}\u{644}")
          (codes "wallet_topup_confirm:" ++ shown) success
        ∷ button (codes "❌ \u{631}\u{62f} \u{631}\u{633}\u{6cc}\u{62f}")
            (codes "wallet_topup_reject:" ++ shown) danger
        ∷ [])
      ∷ []))

unfoldable pub wallet_topup_review_buttons : ℕ → Keyboard
unfolding wallet_topup_review_buttons_for
wallet_topup_review_buttons topup_id = wallet_topup_review_buttons_for (decimal_text topup_id)

unfoldable pub dispute_button : ℕ → Keyboard
dispute_button order_id = inline_keyboard (
    ((button
          (codes
            "🚨 \u{62b}\u{628}\u{62a} \u{62f}\u{631}\u{62e}\u{648}\u{627}\u{633}\u{62a} \u{627}\u{633}\u{62a}\u{631}\u{62f}\u{627}\u{62f}")
          (codes "open_dispute:" ++ decimal_text order_id) danger
        ∷ [])
      ∷ []))
