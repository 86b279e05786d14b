-- ===== src/Keyboards/Catalog.antt =====
-- utils/keyboards.py: the buttons of the reseller's catalog.
use baste.Prelude.{Option, none, some, ℕ, Bool, List, [], ◌∷◌, ◌++◌, map, if◌then◌else◌}
use baste.Text.{Text, codes, text_eq}
use baste.Text.Decimal.{decimal_text}
use baste.Schema.{Category, Package}
use baste.Keyboards.{primary, success, danger, Keyboard, inline_keyboard, button}

unfoldable pub catalog_type_menu : Keyboard
catalog_type_menu = inline_keyboard (
    ((button
          (codes
            "📦 \u{628}\u{633}\u{62a}\u{647}\u{200c}\u{647}\u{627}\u{6cc} \u{627}\u{6cc}\u{646}\u{62a}\u{631}\u{646}\u{62a}\u{6cc}")
          (codes "catalog:menu:package") primary
        ∷ [])
      ∷ (button (codes "🔋 \u{634}\u{627}\u{631}\u{698}") (codes "catalog:menu:charge") primary ∷ [])
      ∷ (button (codes "⬅\u{fe0f} \u{628}\u{627}\u{632}\u{6af}\u{634}\u{62a}") (codes "rmenu:home")
            primary
          ∷ [])
      ∷ []))

unfoldable pub catalog_submenu : Text → Keyboard
catalog_submenu catalog_type = inline_keyboard (
    ((button
          (codes
            "📋 \u{645}\u{634}\u{627}\u{647}\u{62f}\u{647} \u{6a9}\u{627}\u{62a}\u{627}\u{644}\u{648}\u{6af}")
          (codes "catalog:view:" ++ catalog_type) primary
        ∷ [])
      ∷ (button
            (codes
              "📁 \u{627}\u{641}\u{632}\u{648}\u{62f}\u{646} \u{627}\u{67e}\u{631}\u{627}\u{62a}\u{648}\u{631} (\u{67e}\u{648}\u{634}\u{647} \u{627}\u{635}\u{644}\u{6cc})")
            (codes "catalog:add_operator:" ++ catalog_type) success
          ∷ [])
      ∷ (button
            (codes
              "📂 \u{627}\u{641}\u{632}\u{648}\u{62f}\u{646} \u{632}\u{6cc}\u{631}\u{67e}\u{648}\u{634}\u{647} (\u{645}\u{627}\u{647}\u{627}\u{646}\u{647}/\u{647}\u{641}\u{62a}\u{6af}\u{6cc}/...)")
            (codes "catalog:add_subcategory:" ++ catalog_type) success
          ∷ [])
      ∷ (button
            ((if text_eq catalog_type (codes "package")
              then codes "➕ \u{627}\u{641}\u{632}\u{648}\u{62f}\u{646} \u{628}\u{633}\u{62a}\u{647}"
              else codes
                  "➕ \u{627}\u{641}\u{632}\u{648}\u{62f}\u{646} \u{645}\u{62d}\u{635}\u{648}\u{644} \u{634}\u{627}\u{631}\u{698}"))
            (codes "catalog:add_package:" ++ catalog_type) success
          ∷ [])
      ∷ (button
            (codes
              "📋 \u{645}\u{62f}\u{6cc}\u{631}\u{6cc}\u{62a}/\u{648}\u{6cc}\u{631}\u{627}\u{6cc}\u{634} \u{67e}\u{648}\u{634}\u{647}\u{200c}\u{647}\u{627}")
            (codes "catalog:manage:" ++ catalog_type) primary
          ∷ [])
      ∷ (button (codes "⬅\u{fe0f} \u{628}\u{627}\u{632}\u{6af}\u{634}\u{62a}")
            (codes "rmenu:catalog") primary
          ∷ [])
      ∷ []))

unfoldable pub catalog_manage_operator_list_buttons : List (ℕ × Category) → Text → Keyboard
catalog_manage_operator_list_buttons operators catalog_type = inline_keyboard (
    (map
        (λ op.
          (button (codes "📁 " ++ op.1.operator_name)
              (codes "catalog:manage_op:" ++ catalog_type ++ codes ":" ++ decimal_text op.0) primary
            ∷ []))
        operators
      ++ ((button (codes "⬅\u{fe0f} \u{628}\u{627}\u{632}\u{6af}\u{634}\u{62a}")
              (codes "catalog:menu:" ++ catalog_type) primary
            ∷ [])
          ∷ [])))

unfoldable pub catalog_manage_operator_detail_buttons : Text → ℕ → List (ℕ × Category) → Keyboard
catalog_manage_operator_detail_buttons catalog_type operator_id subcategories = inline_keyboard (
    ((((button (codes "✏\u{fe0f} \u{648}\u{6cc}\u{631}\u{627}\u{6cc}\u{634} \u{646}\u{627}\u{645}")
              (codes "catalog:edit_op_name:"
                ++ catalog_type
                ++ codes ":"
                ++ decimal_text operator_id)
              primary
            ∷ button (codes "🗑 \u{62d}\u{630}\u{641}")
                (codes "catalog:del_op:" ++ catalog_type ++ codes ":" ++ decimal_text operator_id)
                danger
            ∷ [])
          ∷ [])
        ++ map
            (λ sub.
              (button (codes "📂 " ++ sub.1.title)
                  (codes "catalog:manage_sub:" ++ catalog_type ++ codes ":" ++ decimal_text sub.0)
                  primary
                ∷ []))
            subcategories)
      ++ ((button (codes "⬅\u{fe0f} \u{628}\u{627}\u{632}\u{6af}\u{634}\u{62a}")
              (codes "catalog:manage:" ++ catalog_type) primary
            ∷ [])
          ∷ [])))

-- `f"{n}"` of a number that may be None
unfoldable pub parent_text : Option ℕ → Text
parent_text none = codes "None"
parent_text (some n) = decimal_text n

unfoldable pub catalog_manage_subcategory_detail_buttons :
    Text → Option ℕ → ℕ → List (ℕ × Package) → Keyboard
catalog_manage_subcategory_detail_buttons catalog_type operator_id subcategory_id products =
    inline_keyboard (
      ((((button
                (codes
                  "✏\u{fe0f} \u{648}\u{6cc}\u{631}\u{627}\u{6cc}\u{634} \u{639}\u{646}\u{648}\u{627}\u{646}")
                (codes "catalog:edit_sub_title:"
                  ++ catalog_type
                  ++ codes ":"
                  ++ decimal_text subcategory_id)
                primary
              ∷ button (codes "🗑 \u{62d}\u{630}\u{641}")
                  (codes "catalog:del_sub:"
                    ++ catalog_type
                    ++ codes ":"
                    ++ decimal_text subcategory_id)
                  danger
              ∷ [])
            ∷ [])
          ++ map
              (λ p.
                (button
                    ((if p.1.is_active then codes "✅" else codes "⛔\u{fe0f}")
                      ++ codes " "
                      ++ p.1.name)
                    (codes "catalog:manage_pkg:" ++ catalog_type ++ codes ":" ++ decimal_text p.0)
                    primary
                  ∷ []))
              products)
        ++ ((button (codes "⬅\u{fe0f} \u{628}\u{627}\u{632}\u{6af}\u{634}\u{62a}")
                (codes "catalog:manage_op:" ++ catalog_type ++ codes ":" ++ parent_text operator_id)
                primary
              ∷ [])
            ∷ [])))

unfoldable pub catalog_manage_package_detail_buttons : Text → ℕ → ℕ → Bool → Keyboard
catalog_manage_package_detail_buttons catalog_type subcategory_id package_id is_active =
    inline_keyboard (
      ((button (codes "✏\u{fe0f} \u{648}\u{6cc}\u{631}\u{627}\u{6cc}\u{634} \u{646}\u{627}\u{645}")
            (codes "catalog:edit_pkg_name:" ++ catalog_type ++ codes ":" ++ decimal_text package_id)
            primary
          ∷ button
              (codes
                "✏\u{fe0f} \u{648}\u{6cc}\u{631}\u{627}\u{6cc}\u{634} \u{642}\u{6cc}\u{645}\u{62a} \u{641}\u{631}\u{648}\u{634}")
              (codes "catalog:edit_pkg_price:"
                ++ catalog_type
                ++ codes ":"
                ++ decimal_text package_id)
              primary
          ∷ [])
        ∷ (button
              (codes
                "✏\u{fe0f} \u{648}\u{6cc}\u{631}\u{627}\u{6cc}\u{634} \u{642}\u{6cc}\u{645}\u{62a} \u{62e}\u{631}\u{6cc}\u{62f}")
              (codes "catalog:edit_pkg_cost:"
                ++ catalog_type
                ++ codes ":"
                ++ decimal_text package_id)
              primary
            ∷ button
                ((if is_active
                  then codes
                      "⛔\u{fe0f} \u{63a}\u{6cc}\u{631}\u{641}\u{639}\u{627}\u{644} \u{6a9}\u{631}\u{62f}\u{646}"
                  else codes "✅ \u{641}\u{639}\u{627}\u{644} \u{6a9}\u{631}\u{62f}\u{646}"))
                (codes "catalog:toggle_pkg:"
                  ++ catalog_type
                  ++ codes ":"
                  ++ decimal_text package_id)
                (if is_active then danger else success)
            ∷ [])
        ∷ (button (codes "🗑 \u{62d}\u{630}\u{641}")
              (codes "catalog:del_pkg:" ++ catalog_type ++ codes ":" ++ decimal_text package_id)
              danger
            ∷ [])
        ∷ (button (codes "⬅\u{fe0f} \u{628}\u{627}\u{632}\u{6af}\u{634}\u{62a}")
              (codes "catalog:manage_sub:"
                ++ catalog_type
                ++ codes ":"
                ++ decimal_text subcategory_id)
              primary
            ∷ [])
        ∷ []))

unfoldable pub catalog_delete_confirm_buttons : Text → Text → ℕ → Keyboard
catalog_delete_confirm_buttons catalog_type target target_id = inline_keyboard (
    ((button (codes "✅ \u{628}\u{644}\u{647}، \u{62d}\u{630}\u{641} \u{6a9}\u{646}")
          (codes "catalog:del_"
            ++ target
            ++ codes "_yes:"
            ++ catalog_type
            ++ codes ":"
            ++ decimal_text target_id)
          danger
        ∷ button (codes "❌ \u{627}\u{646}\u{635}\u{631}\u{627}\u{641}")
            (codes "catalog:del_"
              ++ target
              ++ codes "_no:"
              ++ catalog_type
              ++ codes ":"
              ++ decimal_text target_id)
            primary
        ∷ [])
      ∷ []))

unfoldable pub package_edit_price_confirm_buttons : Text → Keyboard
package_edit_price_confirm_buttons token = inline_keyboard (
    ((button
          (codes
            "✅ \u{628}\u{644}\u{647}، \u{642}\u{6cc}\u{645}\u{62a} \u{62f}\u{631}\u{633}\u{62a} \u{627}\u{633}\u{62a}")
          (codes "pkgedit_price_confirm:" ++ token) success
        ∷ button
            (codes "✏\u{fe0f} \u{627}\u{635}\u{644}\u{627}\u{62d} \u{642}\u{6cc}\u{645}\u{62a}")
            (codes "pkgedit_price_edit:" ++ token) danger
        ∷ [])
      ∷ []))

unfoldable pub operator_pick_buttons : List (ℕ × Category) → Text → Text → Keyboard
operator_pick_buttons operators purpose catalog_type = inline_keyboard (
    (map
        (λ op.
          (button (codes "📁 " ++ op.1.operator_name)
              ((if text_eq purpose (codes "sub")
                  then codes "catalog:pick_operator_for_sub"
                  else codes "catalog:pick_operator_for_pkg")
                ++ codes ":"
                ++ catalog_type
                ++ codes ":"
                ++ decimal_text op.0)
              primary
            ∷ []))
        operators
      ++ ((button (codes "⬅\u{fe0f} \u{628}\u{627}\u{632}\u{6af}\u{634}\u{62a}")
              (codes "catalog:menu:" ++ catalog_type) primary
            ∷ [])
          ∷ [])))

unfoldable pub category_pick_buttons : List (ℕ × Category) → Text → Keyboard
category_pick_buttons categories catalog_type = inline_keyboard (
    (map
        (λ c.
          (button (codes "📂 " ++ c.1.title)
              (codes "catalog:pick_category:" ++ catalog_type ++ codes ":" ++ decimal_text c.0)
              primary
            ∷ []))
        categories
      ++ ((button (codes "⬅\u{fe0f} \u{628}\u{627}\u{632}\u{6af}\u{634}\u{62a}")
              (codes "catalog:add_package:" ++ catalog_type) primary
            ∷ [])
          ∷ [])))
