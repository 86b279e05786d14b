-- ===== src/Reports.antt =====
-- services/report_service.py: the sales of a reseller and of the platform over the last days. The
-- spreadsheet is left out.
pub mod Profit
use baste.Prelude.{
  ℕ, ◌+◌, ◌*◌, Bool, true, false, ◌&&◌, Option, none, some, List, [], ◌∷◌, ◌==◌, if◌then◌else◌, leb,
  length,
}
use baste.Prelude.Int.{ℤ, pos, ◌+ℤ◌, ◌-ℤ◌}
use baste.Table.{find, select}
use baste.Schema.{Db, Order, OrderStatus, Package}
use baste.Exec.{M, pure, fetch, ◌>>=◌}

unfoldable pub is_activated : OrderStatus → Bool
is_activated OrderStatus.activated = true
is_activated _ = false

-- `created_at >= (NOW() - INTERVAL days DAY)`, with the days on the other side.
unfoldable pub is_recent : ℕ → ℕ → Order → Bool
is_recent now days o = leb now (o.created_at + days * 86400)

-- The inner join of the orders with their packages.
unfoldable pub with_package : Db → List (ℕ × Order) → List (Order × Package)
with_package s [] = []
with_package s ((_, o) ∷ rest) =
    let more = with_package s rest in
    elim (find s.packages o.package_id) [ none ↦ more | some p ↦ (o, p) ∷ more ]

unfoldable pub sum_of : (Order × Package → ℤ) → List (Order × Package) → ℤ
sum_of f [] = pos 0
sum_of f (r ∷ rest) = f r +ℤ sum_of f rest

-- `r["cost_price"] or 0`
unfoldable pub cost_of : Option ℤ → ℤ
cost_of none = pos 0
cost_of (some c) = c

pub record SalesSummary : Type 0 where
  pub order_count : ℕ
  pub total_sales : ℤ
  pub total_cost : ℤ
  pub total_commission_paid : ℤ
  pub real_profit : ℤ
  pub orders : List (Order × Package)

unfoldable pub summary_of : List (Order × Package) → SalesSummary
unfolding sum_of cost_of
summary_of rows =
    let total_sales = sum_of (λ r. r.0.package_price) rows in
    let total_cost = sum_of (λ r. cost_of r.1.cost_price) rows in
    let total_commission_paid = sum_of (λ r. r.0.commission_amount) rows in
    record {
      order_count = length rows;
      total_sales = total_sales;
      total_cost = total_cost;
      total_commission_paid = total_commission_paid;
      real_profit = total_sales -ℤ total_cost -ℤ total_commission_paid;
      orders = rows;
    }

unfoldable pub reseller_sales : ℕ → ℕ → ℕ → Db → List (Order × Package)
unfolding is_activated is_recent with_package
reseller_sales now reseller_id days s = with_package s (
    select (λ _ o. o.reseller_id == reseller_id && is_activated o.status && is_recent now days o)
      s.orders)

unfoldable pub reseller_sales_summary : ℕ → ℕ → ℕ → M SalesSummary
reseller_sales_summary now reseller_id days = do
  rows ← fetch (reseller_sales now reseller_id days)
  pure (summary_of rows)

pub record PlatformSummary : Type 0 where
  pub order_count : ℕ
  pub total_sales : ℤ
  pub total_commission_collected : ℤ
  pub total_reseller_profit : ℤ

unfoldable pub platform_sales : ℕ → ℕ → Db → List (Order × Package)
unfolding is_activated is_recent with_package
platform_sales now days s =
    with_package s (select (λ _ o. is_activated o.status && is_recent now days o) s.orders)

unfoldable pub platform_summary_of : List (Order × Package) → PlatformSummary
unfolding sum_of cost_of
platform_summary_of rows =
    let total_sales = sum_of (λ r. r.0.package_price) rows in
    let total_commission = sum_of (λ r. r.0.commission_amount) rows in
    let total_cost = sum_of (λ r. cost_of r.1.cost_price) rows in
    record {
      order_count = length rows;
      total_sales = total_sales;
      total_commission_collected = total_commission;
      total_reseller_profit = total_sales -ℤ total_cost -ℤ total_commission;
    }

unfoldable pub platform_wide_summary : ℕ → ℕ → M PlatformSummary
platform_wide_summary now days = do
  rows ← fetch (platform_sales now days)
  pure (platform_summary_of rows)
