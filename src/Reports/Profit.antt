-- ===== src/Reports/Profit.antt =====
-- services/report_service.py: the profit of a report is the profit of its orders.
use baste.Prelude.{ℕ, ◌≡◌, refl, ap, ◌∙◌, List, [], ◌∷◌}
use baste.Prelude.Int.{ℤ, ◌+ℤ◌, ◌-ℤ◌, int_laws}
use baste.Schema.{Db, Order, Package}
use baste.Exec.{ok}
use baste.Reports.{
  sum_of, cost_of, summary_of, SalesSummary, reseller_sales, reseller_sales_summary,
}

-- What an order leaves the reseller.
abbrev pub profit_of : Order × Package → ℤ
profit_of r = r.0.package_price -ℤ cost_of r.1.cost_price -ℤ r.0.commission_amount

regroup : (a b c x y z : ℤ) → a +ℤ x -ℤ (b +ℤ y) -ℤ (c +ℤ z) ≡ a -ℤ b -ℤ c +ℤ (x -ℤ y -ℤ z)
regroup a b c x y z = omega int_laws

sum-profit :
    (rows : List (Order × Package))
    → sum_of (λ r. r.0.package_price) rows
        -ℤ sum_of (λ r. cost_of r.1.cost_price) rows
        -ℤ sum_of (λ r. r.0.commission_amount) rows
      ≡ sum_of profit_of rows
unfolding sum_of ◌-ℤ◌
sum-profit [] = refl
sum-profit (r ∷ rows) =
    regroup r.0.package_price (cost_of r.1.cost_price) r.0.commission_amount _ _ _
    ∙ ap (λ t. profit_of r +ℤ t) (sum-profit rows)

-- The report changes nothing, and the profit that it shows for a reseller is the sum, over the orders
-- that it lists, of the price less the package's cost and the commission.
pub reseller_sales_summary-profit :
    (now k days : ℕ) (s : Db)
    → (summary : SalesSummary) × (reseller_sales_summary now k days s ≡ (ok summary, s))
      × (summary.orders ≡ reseller_sales now k days s)
      × (summary.real_profit ≡ sum_of profit_of summary.orders)
unfolding reseller_sales_summary summary_of
reseller_sales_summary-profit now k days s =
    (summary_of (reseller_sales now k days s), refl, refl, sum-profit (reseller_sales now k days s))
