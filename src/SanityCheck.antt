-- ===== src/SanityCheck.antt =====
-- services/sanity_check.py: the lowest plausible price of an operator's packages.
use baste.Prelude.{Bool, false, Option, none, some, map_option}
use baste.Prelude.Int.{ℤ}
use baste.Text.{Text, text_eq}
use baste.Table.{select_one}
use baste.Exec.{M, invalid_operation, fetch, or_raise, ◌>>=◌}
use baste.Chat.Decimals.{Amount}

unfoldable pub get_min_sane_price : Text → M (Option ℤ)
get_min_sane_price operator_name = fetch (λ s.
    map_option (λ r. r.1.min_sane_price)
      (select_one (λ _ f. text_eq f.operator_name operator_name) s.price_floors))

-- `none` where the comparison raises.
unfoldable pub is_below : Amount → Option ℤ → Option Bool
is_below sale_price none = some false
is_below sale_price (some min_price) = sale_price.below min_price

unfoldable pub is_price_suspicious : Text → Amount → M Bool
unfolding get_min_sane_price is_below
is_price_suspicious operator_name sale_price = do
  min_price ← get_min_sane_price operator_name
  or_raise (is_below sale_price min_price) invalid_operation
