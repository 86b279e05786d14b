-- ===== src/Charge/Single.antt =====
-- services/charge_service.py, purchase_charge: one code for one payment.
use baste.Prelude.{
  ℕ, ◌≡◌, ◌⊎◌, refl, subst, true, false, none, some, arith, inl, inr, Bool-cases, Option-cases,
  ◌==◌, if◌then◌else◌,
}
use baste.Prelude.Int.{ℤ, ◌-ℤ◌, ◌≤ℤ◌, ltb_ℤ}
use baste.Text.{Text}
use baste.Table.{find, insert, select_one}
use baste.Table.Laws.{find-update}
use baste.Table.Keys.{IsKeyed, select_one-find}
use baste.Schema.{Db, Order, ChargeCode, Customer}
use baste.Exec.{ok, err, Error, integrity_error}
use baste.Orders.{Env, charge_wallet}
use baste.Orders.Insert.{insert_order-cases, with_order}
use baste.Charge.{deliver_code, in_stock, delivery_order, sell_to, update_code}

module _ (env : Env) (code : Text) (k p c : ℕ) (price : ℤ) (s : Db) where
  abbrev sold_order : Text → Order
  sold_order value = delivery_order env code k p c price value

  -- What the delivery of the code `row` under the key `i` has written.
  unfoldable pub delivered : ℕ → ChargeCode → Db
  delivered i row =
      update_code i (sell_to env.now c) (with_order (sold_order row.code) (charge_wallet c price s))

  pub deliver_run :
      (w : Customer) (i : ℕ) (row : ChargeCode)
      → find s.customers c ≡ some w
      → ltb_ℤ w.wallet_balance price ≡ false
      → select_one (in_stock p) s.charge_codes ≡ some (i, row)
      → (deliver_code env code k p c price s ≡ (err integrity_error, s))
        ⊎ (deliver_code env code k p c price s ≡ (ok (i, row.code), delivered i row))
  deliver_run w i row e rich stock =
      elim (insert_order-cases (sold_order row.code) (charge_wallet c price s)) [
        | inl failed ↦ inl (unfold deliver_code in rw (e, rich, stock, failed))
        | inr done ↦ inr (unfold deliver_code delivered in rw (e, rich, stock, done))
      ]

  -- The delivery of the code `value` of row `i` that ends in `s'`.
  abbrev pub Delivers : ℕ × Text → Db → Type 0
  Delivers (i, value) s' =
      (row : ChargeCode) × (w : Customer) × (find s.charge_codes i ≡ some row)
      × (in_stock p i row ≡ true)
      × (value ≡ row.code)
      × (find s.customers c ≡ some w)
      × (price ≤ℤ w.wallet_balance)
      × ((j : ℕ)
          → find s'.customers j ≡ (
              if c == j
              then some (record w { wallet_balance = w.wallet_balance -ℤ price })
              else find s.customers j))
      × ((j : ℕ)
          → find s'.charge_codes j
            ≡ (if i == j then some (sell_to env.now c row) else find s.charge_codes j))
      × (s'.orders ≡ insert s.orders (sold_order value))

  delivered-Delivers :
      (w : Customer) (i : ℕ) (row : ChargeCode)
      → IsKeyed s.charge_codes
      → find s.customers c ≡ some w
      → ltb_ℤ w.wallet_balance price ≡ false
      → select_one (in_stock p) s.charge_codes ≡ some (i, row)
      → Delivers (i, row.code) (delivered i row)
  unfolding delivered update_code charge_wallet
  delivered-Delivers w i row keyed e rich stock =
      let (f, passes) = select_one-find (in_stock p) s.charge_codes i row keyed stock in
      (
        row,
        w,
        f,
        passes,
        refl,
        e,
        ground arith,
        λ j. ground (
          arith,
          find-update s.customers c j
              (λ w. record w { wallet_balance = w.wallet_balance -ℤ price }),
        ),
        λ j. ground (arith, find-update s.charge_codes i j (sell_to env.now c)),
        refl,
      )

  -- A delivery that returns has taken a code of the package that was in stock, from a customer with
  -- at least the price in the wallet. It takes the price from that wallet and from no other, marks
  -- that code as sold to the customer and no other, and adds the one order that holds the code.
  pub deliver_code-Delivers :
      (r : ℕ × Text)
      → IsKeyed s.charge_codes
      → (deliver_code env code k p c price s).0 ≡ ok r
      → Delivers r (deliver_code env code k p c price s).1
  deliver_code-Delivers r keyed h = elim (Option-cases (find s.customers c)) [
    | inl missing ↦ unfold deliver_code in ground arith
    | inr (w, e) ↦ elim (Bool-cases (ltb_ℤ w.wallet_balance price)) [
      | inl poor ↦ unfold deliver_code in ground arith
      | inr rich ↦ elim (Option-cases (select_one (in_stock p) s.charge_codes)) [
        | inl empty ↦ unfold deliver_code in ground arith
        | inr ((i, row), stock) ↦ elim (deliver_run w i row e rich stock) [
          | inl failed ↦ cc
          | inr done ↦ rw done (
              subst (λ q. Delivers q (delivered i row)) (cc)
                (delivered-Delivers w i row keyed e rich stock))
        ]
      ]
    ]
  ]

  -- A delivery that raises has changed nothing: neither the wallet, nor the stock, nor the orders. And
  -- it has one of four reasons: there is no such customer, the wallet holds less than the price, no
  -- code of the package is in stock, or the order violates a key of its table.
  pub deliver_code_raises :
      (e : Error)
      → (deliver_code env code k p c price s).0 ≡ err e
      → ((deliver_code env code k p c price s).1 ≡ s)
        × ((find s.customers c ≡ none)
            ⊎ ((w : Customer) × (find s.customers c ≡ some w)
                × ((¬ (price ≤ℤ w.wallet_balance))
                    ⊎ (select_one (in_stock p) s.charge_codes ≡ none)
                    ⊎ (e ≡ integrity_error))))
  deliver_code_raises e h = elim (Option-cases (find s.customers c)) [
    | inl missing ↦ (unfold deliver_code in rw missing refl, inl missing)
    | inr (w, f) ↦ elim (Bool-cases (ltb_ℤ w.wallet_balance price)) [
      | inl poor ↦ (unfold deliver_code in rw (f, poor) refl, inr (w, f, inl (ground arith)))
      | inr rich ↦ elim (Option-cases (select_one (in_stock p) s.charge_codes)) [
        | inl empty ↦ (unfold deliver_code in rw (f, rich, empty) refl, inr (w, f, inr (inl empty)))
        | inr ((i, row), stock) ↦ elim (deliver_run w i row f rich stock) [
          | inl failed ↦ (rw failed refl, inr (w, f, inr (inr (cc))))
          | inr done ↦ cc
        ]
      ]
    ]
  ]
