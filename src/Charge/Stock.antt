-- ===== src/Charge/Stock.antt =====
-- services/charge_service.py, purchase_charge: what a delivery does to the stock of the package and the
-- wallet of the customer, and when it is made.
use baste.Prelude.{
  ℕ, ◌+◌, ◌-◌, ◌<◌, ◌≡◌, refl, Bool, true, false, Option, none, some, arith, ap, inl, inr,
  Bool-cases, Option-cases, map_option,
}
use baste.Prelude.Int.{ℤ, ◌-ℤ◌, ◌≤ℤ◌, ltb_ℤ}
use baste.Text.{Text}
use baste.Table.{find, select_one}
use baste.Table.Laws.{count-update, count-none, find-update}
use baste.Table.Keys.{IsKeyed, select_one-find}
use baste.Schema.{Db, ChargeCode, Customer, Reseller, Package}
use baste.Exec.{ok, is_ok}
use baste.Orders.{Env, charge_wallet, insert_order, has_code}
use baste.Orders.Insert.{with_order, insert_order-completes}
use baste.Charge.{
  deliver_code, in_stock, is_available, available_codes, delivery_order, sell_to, update_code,
}
use baste.Charge.Single.{deliver_run, delivered}

-- What a customer and the owner of the package see: the codes in stock, and the balance.
pub record View : Type 0 where
  pub stock : ℕ
  pub balance : ℤ

unfoldable pub view : ℕ → ℕ → Db → Option View
view p c s =
    map_option (λ w. record { stock = available_codes p s; balance = w.wallet_balance })
      (find s.customers c)

-- A sale of one code, of a view: one code less, and the price off the balance.
unfoldable pub sell : ℤ → View → View
sell price v = record { stock = v.stock - 1; balance = v.balance -ℤ price }

-- The sale, or nothing: the call returns exactly if it was the sale.
pub data Sale (price : ℤ) : Bool → Option View → Option View → Type 0 where
  sold :
      (v : View) → 0 < v.stock → price ≤ℤ v.balance → Sale price true (some v) (some (sell price v))
  refused : (v : Option View) → Sale price false v v

module _ (env : Env) (code : Text) (k p c : ℕ) (price : ℤ) (s : Db) where
  stock-delivered :
      (i : ℕ) (row : ChargeCode)
      → find s.charge_codes i ≡ some row
      → in_stock p i row ≡ true
      → available_codes p (delivered env code k p c price s i row) + 1 ≡ available_codes p s
  unfolding delivered update_code charge_wallet available_codes
  stock-delivered i row f passes =
      ground (arith, count-update (in_stock p) s.charge_codes i (sell_to env.now c) row f, sold)
    where
      sold : in_stock p i (sell_to env.now c row) ≡ false
      sold = unfold in_stock sell_to is_available in ground arith

  customers-delivered :
      (i : ℕ) (row : ChargeCode) (w : Customer)
      → find s.customers c ≡ some w
      → find (delivered env code k p c price s i row).customers c
        ≡ some (record w { wallet_balance = w.wallet_balance -ℤ price })
  unfolding delivered update_code charge_wallet
  customers-delivered i row w e = ground (
    arith,
    find-update s.customers c c (λ w. record w { wallet_balance = w.wallet_balance -ℤ price }),
  )

  abbrev seen : Customer → View
  seen w = record { stock = available_codes p s; balance = w.wallet_balance }

  view-seen : (w : Customer) → find s.customers c ≡ some w → view p c s ≡ some (seen w)
  unfolding view
  view-seen w e = rw e

  view-delivered :
      (i : ℕ) (row : ChargeCode) (w : Customer)
      → find s.charge_codes i ≡ some row
      → in_stock p i row ≡ true
      → find s.customers c ≡ some w
      → view p c (delivered env code k p c price s i row) ≡ some (sell price (seen w))
  unfolding view sell
  view-delivered i row w f passes e = rw (customers-delivered i row w e) (
      ap (λ n. some (record { stock = n; balance = w.wallet_balance -ℤ price }))
        (omega (arith, stock-delivered i row f passes)))

  Sale-delivered :
      (i : ℕ) (row : ChargeCode) (w : Customer)
      → IsKeyed s.charge_codes
      → find s.customers c ≡ some w
      → ltb_ℤ w.wallet_balance price ≡ false
      → select_one (in_stock p) s.charge_codes ≡ some (i, row)
      → Sale price true (view p c s) (view p c (delivered env code k p c price s i row))
  Sale-delivered i row w keyed e rich stock =
      let (f, passes) = select_one-find (in_stock p) s.charge_codes i row keyed stock in
      rw (view-delivered i row w f passes e, view-seen w e)
        (sold (seen w) (omega (arith, stock-delivered i row f passes)) (ground arith))

  -- Towards the view of a customer and a package, a delivery is a sale of one code, which wants a code
  -- in stock and the price in the wallet, or nothing at all; and it is the sale exactly if it returns.
  pub deliver_code-Sale :
      IsKeyed s.charge_codes
      → Sale price
          (is_ok (deliver_code env code k p c price s).0)
          (view p c s)
          (view p c (deliver_code env code k p c price s).1)
  unfolding is_ok
  deliver_code-Sale keyed = elim (Option-cases (find s.customers c)) [
    | inl missing ↦ unfold deliver_code in rw missing (refused _)
    | inr (w, e) ↦ elim (Bool-cases (ltb_ℤ w.wallet_balance price)) [
      | inl poor ↦ unfold deliver_code in rw (e, poor) (refused _)
      | inr rich ↦ elim (Option-cases (select_one (in_stock p) s.charge_codes)) [
        | inl empty ↦ unfold deliver_code in rw (e, rich, empty) (refused _)
        | inr ((i, row), stock) ↦ elim (deliver_run env code k p c price s w i row e rich stock) [
          | inl failed ↦ rw failed (refused _)
          | inr done ↦ rw done (Sale-delivered i row w keyed e rich stock)
        ]
      ]
    ]
  ]

  inserted :
      (value : Text) (w : Customer) (r : Reseller) (q : Package)
      → find s.customers c ≡ some w
      → find s.resellers k ≡ some r
      → find s.packages p ≡ some q
      → select_one (has_code code) s.orders ≡ none
      → insert_order (delivery_order env code k p c price value) (charge_wallet c price s) ≡ (
        ok s.orders.next_id,
        with_order (delivery_order env code k p c price value) (charge_wallet c price s),
      )
  unfolding charge_wallet delivery_order
  inserted value w r q e reseller package_row fresh =
      insert_order-completes _ _ r q (taken w) fresh reseller package_row
        (ground (arith, find-update s.customers c c taken))
    where
      taken : Customer → Customer
      taken a = record a { wallet_balance = a.wallet_balance -ℤ price }

  -- A delivery returns if the customer has the price, a code of the package is in stock, the reseller
  -- and the package are there, and no order has the code of the new one.
  pub deliver_code_completes :
      (w : Customer) (r : Reseller) (q : Package)
      → find s.customers c ≡ some w
      → price ≤ℤ w.wallet_balance
      → 0 < available_codes p s
      → find s.resellers k ≡ some r
      → find s.packages p ≡ some q
      → select_one (has_code code) s.orders ≡ none
      → is_ok (deliver_code env code k p c price s).0 ≡ true
  deliver_code_completes w r q e rich stock reseller package_row fresh =
      elim (Option-cases (select_one (in_stock p) s.charge_codes)) [
        | inl empty ↦ absurd (omega (arith, none_left empty))
        | inr ((i, row), stock) ↦
            unfold deliver_code is_ok in
            rw (e, poor_not, stock, inserted row.code w r q e reseller package_row fresh) refl
      ]
    where
      none_left : select_one (in_stock p) s.charge_codes ≡ none → available_codes p s ≡ 0
      none_left empty = unfold available_codes in count-none (in_stock p) s.charge_codes empty

      poor_not : ltb_ℤ w.wallet_balance price ≡ false
      poor_not = ground arith
