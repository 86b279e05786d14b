-- ===== src/Charge/Sold.antt =====
-- services/charge_service.py, list_sold_codes: the sold codes of a package, the last sold first.
use baste.Prelude.{
  ℕ, Bool, true, false, ◌&&◌, not, Option, none, some, List, [], ◌∷◌, ◌==◌, ltb, if◌then◌else◌, map,
  map_option, take,
}
use baste.Text.{Text}
use baste.Table.{find, select}
use baste.Schema.{Db, ChargeCode}
use baste.Exec.{M, fetch}
use baste.Charge.{is_available}

pub record SoldCode : Type 0 where
  pub code : Text
  pub sold_at : Option ℕ
  pub order_code : Option Text
  pub telegram_user_id : Option ℕ

-- The two left joins.
unfoldable pub order_sold : Db → Option ℕ → Option Text
order_sold s none = none
order_sold s (some i) = map_option (λ o. o.order_code) (find s.orders i)

unfoldable pub buyer : Db → Option ℕ → Option ℕ
buyer s none = none
buyer s (some i) = map_option (λ c. c.telegram_user_id) (find s.customers i)

unfoldable pub sold_row : Db → ℕ × ChargeCode → SoldCode
unfolding order_sold buyer
sold_row s (_, c) = record {
  code = c.code;
  sold_at = c.sold_at;
  order_code = order_sold s c.sold_order_id;
  telegram_user_id = buyer s c.sold_to_customer_id;
}

-- ORDER BY sold_at DESC: NULL comes last. Rows sold at one time may come in any order; here by id.
unfoldable pub earlier : Option ℕ → Option ℕ → Bool
earlier none none = false
earlier none (some u) = true
earlier (some t) none = false
earlier (some t) (some u) = ltb t u

unfoldable pub place : SoldCode → List SoldCode → List SoldCode
unfolding earlier
place x [] = x ∷ []
place x (y ∷ ys) =
    let rest = place x ys in if earlier x.sold_at y.sold_at then y ∷ rest else x ∷ y ∷ ys

unfoldable pub by_sold_at : List SoldCode → List SoldCode
unfolding place
by_sold_at [] = []
by_sold_at (x ∷ xs) = place x (by_sold_at xs)

unfoldable pub list_sold_codes : ℕ → ℕ → M (List SoldCode)
unfolding by_sold_at sold_row
list_sold_codes package_id limit = fetch (λ s. take limit (
    by_sold_at (
      map (sold_row s) (
        select (λ _ c. c.package_id == package_id && not (is_available c.status)) s.charge_codes))))
