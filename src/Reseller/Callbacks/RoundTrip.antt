-- ===== src/Reseller/Callbacks/RoundTrip.antt =====
-- utils/keyboards.py and handlers/reseller/orders.py: the data that a button carries brings its order,
-- or its top-up, back to the handler that it is meant for.
use baste.Prelude.{ℕ, List, [], ◌∷◌, ◌++◌, map}
use baste.Text.{Text}
use baste.Chat.{World, H}
use baste.Keyboards.{Keyboard, inline_keyboard, InlineButton}
use baste.Reseller.Callbacks.{order_callback}

-- What the buttons of a keyboard do when they are pressed, in their order.
unfoldable pub presses : World → ℕ → ℕ → Keyboard → List (H Unit)
presses w reseller_id user (inline_keyboard rows) = all_of rows
  where
    row_of : List InlineButton → List (H Unit)
    row_of row = map (λ b. order_callback w reseller_id user b.callback_data) row

    all_of : List (List InlineButton) → List (H Unit)
    all_of [] = []
    all_of (row ∷ rest) = row_of row ++ all_of rest
presses w reseller_id user _ = []
