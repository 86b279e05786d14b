-- ===== src/Keyboards/Stock.antt =====
-- utils/keyboards.py: the buttons of the stock of charge codes.
use baste.Prelude.{ℕ, List, [], ◌∷◌, ◌++◌, map}
use baste.Text.{Text, codes}
use baste.Text.Decimal.{decimal_text}
use baste.Prelude.Int.{ℤ}
use baste.Schema.{Category, Package, ChargeCode}
use baste.Keyboards.{primary, success, danger, Keyboard, inline_keyboard, button}

unfoldable pub charge_stock_menu : Keyboard
charge_stock_menu = inline_keyboard (
    ((button (codes "➕ \u{627}\u{641}\u{632}\u{648}\u{62f}\u{646} \u{6a9}\u{62f}")
          (codes "cstock:pick:add") success
        ∷ [])
      ∷ (button
            (codes
              "📋 \u{646}\u{645}\u{627}\u{6cc}\u{634} \u{6a9}\u{62f}\u{647}\u{627}\u{6cc} \u{645}\u{648}\u{62c}\u{648}\u{62f}")
            (codes "cstock:pick:list") primary
          ∷ [])
      ∷ (button (codes "🗑 \u{62d}\u{630}\u{641} \u{645}\u{648}\u{62c}\u{648}\u{62f}\u{6cc}")
            (codes "cstock:pick:remove") danger
          ∷ [])
      ∷ (button
            (codes
              "🧾 \u{6a9}\u{62f}\u{647}\u{627}\u{6cc} \u{641}\u{631}\u{648}\u{62e}\u{62a}\u{647}\u{200c}\u{634}\u{62f}\u{647}")
            (codes "cstock:pick:sold") primary
          ∷ [])
      ∷ (button (codes "⬅\u{fe0f} \u{628}\u{627}\u{632}\u{6af}\u{634}\u{62a}") (codes "rmenu:home")
            primary
          ∷ [])
      ∷ []))

unfoldable pub charge_operator_pick_buttons : List (ℕ × Category) → Text → Keyboard
charge_operator_pick_buttons operators action = inline_keyboard (
    (map
        (λ op.
          (button (codes "📁 " ++ op.1.operator_name)
              (codes "cstock:op:" ++ action ++ codes ":" ++ decimal_text op.0) primary
            ∷ []))
        operators
      ++ ((button (codes "⬅\u{fe0f} \u{628}\u{627}\u{632}\u{6af}\u{634}\u{62a}")
              (codes "rmenu:charge_stock") primary
            ∷ [])
          ∷ [])))

unfoldable pub charge_category_pick_buttons : List (ℕ × Category) → Text → Keyboard
charge_category_pick_buttons categories action = inline_keyboard (
    (map
        (λ c.
          (button (codes "📂 " ++ c.1.title)
              (codes "cstock:cat:" ++ action ++ codes ":" ++ decimal_text c.0) primary
            ∷ []))
        categories
      ++ ((button (codes "⬅\u{fe0f} \u{628}\u{627}\u{632}\u{6af}\u{634}\u{62a}")
              ((codes "cstock:pick:") ++ action) primary
            ∷ [])
          ∷ [])))

unfoldable pub charge_code_remove_buttons : List (ℕ × ChargeCode) → ℕ → Keyboard
charge_code_remove_buttons charge_codes package_id = inline_keyboard (
    ((map
          (λ c.
            (button (codes "🗑 " ++ c.1.code)
                (codes "cstock:delcode:"
                  ++ decimal_text c.0
                  ++ codes ":"
                  ++ decimal_text package_id)
                danger
              ∷ []))
          charge_codes
        ++ ((button
                (codes
                  "🗑 \u{62d}\u{630}\u{641} \u{647}\u{645}\u{647}\u{200c}\u{6cc} \u{645}\u{648}\u{62c}\u{648}\u{62f}\u{6cc} \u{627}\u{6cc}\u{646} \u{645}\u{62d}\u{635}\u{648}\u{644}")
                (codes "cstock:clearall:" ++ decimal_text package_id) danger
              ∷ [])
            ∷ []))
      ++ ((button (codes "⬅\u{fe0f} \u{628}\u{627}\u{632}\u{6af}\u{634}\u{62a}")
              (codes "rmenu:charge_stock") primary
            ∷ [])
          ∷ [])))

-- `format_price` renders `:,.0f`; `available_count` is the count that the handler has put in the row.
unfoldable pub charge_product_pick_buttons :
    (ℤ → Text) → (ℕ → ℕ) → List (ℕ × Package) → Text → Keyboard
charge_product_pick_buttons format_price available_count products action = inline_keyboard (
    map
      (λ p.
        button
          (codes "🔋 "
            ++ p.1.name
            ++ codes " — "
            ++ format_price p.1.sale_price
            ++ codes " \u{62a}\u{648}\u{645}\u{627}\u{646} ("
            ++ decimal_text (available_count p.0)
            ++ codes " \u{645}\u{648}\u{62c}\u{648}\u{62f})")
          (codes "cstock:prod:" ++ action ++ codes ":" ++ decimal_text p.0) primary
        ∷ [])
      products
    ++ ((button (codes "⬅\u{fe0f} \u{628}\u{627}\u{632}\u{6af}\u{634}\u{62a}")
            (codes "rmenu:charge_stock") primary
          ∷ [])
        ∷ []))
