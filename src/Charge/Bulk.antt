-- ===== src/Charge/Bulk.antt =====
-- services/charge_service.py, purchase_charge_bulk: as many codes as were paid for, or none.
use baste.Prelude.{
  ℕ, ◌≡◌, refl, ap, ◌∙◌, true, false, Option, none, some, [], ◌∷◌, arith, inl, inr, Bool-cases,
  Option-cases, ◌⊎◌, ◌==◌, if◌then◌else◌, List, All, All-take, All-map, map, length, length-take,
  take, ltb, ◌≤◌,
}
use baste.Prelude.Int.{ℤ, pos, ◌-ℤ◌, ◌*ℤ◌, ◌≤ℤ◌, ltb_ℤ}
use baste.Table.{find, select, find_row}
use baste.Table.Laws.{find-update}
use baste.Table.Keys.{IsKeyed, Keyed, Keyed-take, select-IsKeyed, select-find}
use baste.Schema.{Db, ChargeCode, Customer, Reseller}
use baste.Exec.{type_error, ok, err, Result, settle}
use baste.Orders.{Env, charge_wallet}
use baste.Charge.{Delivery, deliver_bulk, sell_all, sell_each, in_stock}
use baste.Text.{Text}
use baste.Charge.Each.{IsSoldTo, loop, customers-loop, others-loop, sold-loop}

ok_settled :
    (s : Db) (r : Result (List Delivery) × Db) (ds : List Delivery)
    → (settle s r).0 ≡ ok ds
    → (settle s r ≡ r) × (r.0 ≡ ok ds)
ok_settled s (ok a, s') ds h = (refl, h)
ok_settled s (err e, s') ds h = cc

at_least : (m n : ℕ) → ltb m n ≡ false → n ≤ m
at_least m n h = ground arith

module _ (env : ℕ → Env) (row : Option Reseller) (k p c : ℕ) (price : ℤ) (q : ℕ) (s : Db) where
  -- The codes that the query returns.
  abbrev pub picked : List (ℕ × ChargeCode)
  picked = take q (select (in_stock p) s.charge_codes)

  charged : Db
  charged = charge_wallet c (price *ℤ pos q) s

  -- The delivery of `ds` that ends in `s'`.
  abbrev pub DeliversAll : List Delivery → Db → Type 0
  DeliversAll ds s' =
      (w : Customer) × (length picked ≡ q)
      × Keyed 0 s.charge_codes.next_id picked
      × (All (λ r. (find s.charge_codes r.0 ≡ some r.1) × (in_stock p r.0 r.1 ≡ true)) picked)
      × (map (λ d. d.code) ds ≡ map (λ r. r.1.code) picked)
      × (find s.customers c ≡ some w)
      × (price *ℤ pos q ≤ℤ w.wallet_balance)
      × ((j : ℕ)
          → find s'.customers j ≡ (
              if c == j
              then some (record w { wallet_balance = w.wallet_balance -ℤ price *ℤ pos q })
              else find s.customers j))
      × (All (λ r. IsSoldTo c r.1 (find s'.charge_codes r.0)) picked)
      × ((j : ℕ)
          → ((a : ChargeCode) × (find_row j picked ≡ some a))
            ⊎ (find s'.charge_codes j ≡ find s.charge_codes j))

  found :
      IsKeyed s.charge_codes
      → All (λ r. (find s.charge_codes r.0 ≡ some r.1) × (in_stock p r.0 r.1 ≡ true)) picked
  found keyed = All-take _ q _ (select-find (in_stock p) s.charge_codes keyed)

  charged_found :
      IsKeyed s.charge_codes → All (λ r. find charged.charge_codes r.0 ≡ some r.1) picked
  unfolding charged charge_wallet
  charged_found keyed = All-map _ _ (λ r h. h.0) picked (found keyed)

  charged_wallet :
      (w : Customer)
      → find s.customers c ≡ some w
      → (j : ℕ)
      → find charged.customers j ≡ (
          if c == j
          then some (record w { wallet_balance = w.wallet_balance -ℤ price *ℤ pos q })
          else find s.customers j)
  unfolding charged charge_wallet
  charged_wallet w e j = ground (
    arith,
    find-update s.customers c j
        (λ a. record a { wallet_balance = a.wallet_balance -ℤ price *ℤ pos q }),
  )

  sold :
      (w : Customer) (prefix : Text) (ds : List Delivery)
      → IsKeyed s.charge_codes
      → find s.customers c ≡ some w
      → ltb_ℤ w.wallet_balance (price *ℤ pos q) ≡ false
      → ltb (length picked) q ≡ false
      → (loop env prefix k p c price 1 picked charged).0 ≡ ok ds
      → DeliversAll ds (loop env prefix k p c price 1 picked charged).1
  sold w prefix ds keyed e rich enough h =
      let keys =
        Keyed-take 0 s.charge_codes.next_id q (select (in_stock p) s.charge_codes)
          (select-IsKeyed (in_stock p) s.charge_codes keyed) in
      let all_sold =
        sold-loop env prefix k p c price 1 0 s.charge_codes.next_id picked charged ds keys
          (charged_found keyed) h in
      (
        w,
        omega (
          arith,
          length-take q (select (in_stock p) s.charge_codes),
          at_least (length picked) q enough,
        ),
        keys,
        found keyed,
        all_sold.1,
        e,
        ground arith,
        λ j.
            ap (λ t. find t j) (customers-loop env prefix k p c price 1 picked charged)
            ∙ charged_wallet w e j,
        all_sold.0,
        others,
      )
    where
      others :
          (j : ℕ)
          → ((a : ChargeCode) × (find_row j picked ≡ some a))
            ⊎ (find (loop env prefix k p c price 1 picked charged).1.charge_codes j
                ≡ find s.charge_codes j)
      others j = elim (Option-cases (find_row j picked)) [
        | inl absent ↦ inr (
            others-loop env prefix k p c price 1 j picked charged absent
            ∙ (unfold charged charge_wallet in refl))
        | inr here ↦ inl here
      ]

  -- The prefix that the loop reads: none is read where there are no rows.
  abbrev pub prefix_of : Option Reseller → Text
  prefix_of none = []
  prefix_of (some r) = r.order_prefix

  sell_all-cases :
      (o : Option Reseller) (rows : List (ℕ × ChargeCode)) (t : Db)
      → (sell_all env o k p c price rows t ≡ (err type_error, t))
        ⊎ (sell_all env o k p c price rows t ≡ loop env (prefix_of o) k p c price 1 rows t)
  unfolding sell_all sell_each
  sell_all-cases none [] t = inr refl
  sell_all-cases none (_ ∷ _) t = inl refl
  sell_all-cases (some r) rows t = inr refl

  deliver_bulk_run :
      (w : Customer)
      → find s.customers c ≡ some w
      → ltb_ℤ w.wallet_balance (price *ℤ pos q) ≡ false
      → ltb (length picked) q ≡ false
      → deliver_bulk env row k p c price q s
        ≡ settle s (sell_all env row k p c price picked charged)
  unfolding deliver_bulk charged
  deliver_bulk_run w e rich enough = rw (e, rich, enough)

  -- A bulk delivery that returns has taken as many codes as were asked for, each of them a different
  -- row in stock for the package, from a customer whose wallet held the whole price. It takes
  -- the price of all from that wallet and from no other, delivers the codes of those rows, marks each
  -- as sold to the customer, and changes no other code.
  pub deliver_bulk-DeliversAll :
      (ds : List Delivery)
      → IsKeyed s.charge_codes
      → (deliver_bulk env row k p c price q s).0 ≡ ok ds
      → DeliversAll ds (deliver_bulk env row k p c price q s).1
  deliver_bulk-DeliversAll ds keyed h = elim (Option-cases (find s.customers c)) [
    | inl missing ↦ unfold deliver_bulk in ground arith
    | inr (w, e) ↦ elim (Bool-cases (ltb_ℤ w.wallet_balance (price *ℤ pos q))) [
      | inl poor ↦ unfold deliver_bulk in ground arith
      | inr rich ↦ elim (Bool-cases (ltb (length picked) q)) [
        | inl short ↦ unfold deliver_bulk in ground arith
        | inr enough ↦
            let run = deliver_bulk_run w e rich enough in
            elim (sell_all-cases row picked charged) [
              | inl raised ↦ let bad = rw (run, raised) at h in ground (arith, bad)
              | inr looped ↦
                  let outcome = loop env (prefix_of row) k p c price 1 picked charged in
                  let done = ok_settled s outcome ds (rw (run, looped) at h) in
                  rw (run, looped, done.0) (sold w (prefix_of row) ds keyed e rich enough done.1)
            ]
      ]
    ]
  ]
