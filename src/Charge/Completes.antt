-- ===== src/Charge/Completes.antt =====
-- services/charge_service.py, purchase_charge_bulk: when the bulk delivery returns.
use baste.Prelude.{
  ℕ, zero, suc, ◌+◌, ◌≤◌, ◌<◌, ◌≡◌, ◌≢◌, refl, true, false, none, some, arith, inl, inr, Bool-cases,
  List, [], ◌∷◌, length, take, ltb,
}
use baste.Prelude.Int.{ℤ, pos, ◌-ℤ◌, ◌*ℤ◌, ◌≤ℤ◌, ltb_ℤ}
use baste.Text.{Text, text_eq, text_eq_sound}
use baste.Table.{find, select, select_one}
use baste.Table.Queries.{length-select}
use baste.Table.Laws.{select_one-insert, find-update}
use baste.Schema.{Db, ChargeCode, Customer, Reseller, Package}
use baste.Exec.{Result, ok, err, is_ok, settle, continue, pure}
use baste.OrderCode.{generate_charge_code}
use baste.OrderCode.Unique.{charge_code_unique}
use baste.Orders.{Env, charge_wallet, insert_order, has_code}
use baste.Orders.Insert.{with_order, insert_order-completes}
use baste.Charge.{
  Delivery, deliver_bulk, sell_all, sell_each, in_stock, available_codes, delivery_order,
  update_code, sell_to,
}

length-take_full : {A : Type 0} (n : ℕ) (l : List A) → n ≤ length l → length (take n l) ≡ n
length-take_full zero l h = refl
length-take_full (suc n) [] h = absurd (omega (arith, h))
length-take_full (suc n) (x ∷ l) h = omega (arith, length-take_full n l (omega (arith, h)))

is_ok-settle :
    (s : Db) (r : Result (List Delivery) × Db) → is_ok r.0 ≡ true → is_ok (settle s r).0 ≡ true
is_ok-settle s (ok a, s') h = h
is_ok-settle s (err e, s') h = h

is_ok-continue :
    (d : Delivery) (r : Result (List Delivery) × Db)
    → is_ok r.0 ≡ true
    → is_ok (continue (λ more. pure (d ∷ more)) r).0 ≡ true
unfolding is_ok
is_ok-continue d (ok a, s') h = refl
is_ok-continue d (err e, s') h = h

module _ (env : ℕ → Env) (r : Reseller) (k p c : ℕ) (price : ℤ) where
  -- The code of the n-th order.
  abbrev pub code_at : ℕ → Text
  code_at n = generate_charge_code r.order_prefix (some n) (env n).moment (env n).draw

  -- The rows that the orders refer to.
  abbrev Referred : Db → Type 0
  Referred s =
      ((a : Reseller) × (find s.resellers k ≡ some a))
      × ((a : Package) × (find s.packages p ≡ some a))
      × ((a : Customer) × (find s.customers c ≡ some a))

  abbrev Fresh : ℕ → ℕ → Db → Type 0
  Fresh lo hi s = (m : ℕ) → lo ≤ m → m < hi → select_one (has_code (code_at m)) s.orders ≡ none

  apart : (m n : ℕ) → m < 1000 → n < 1000 → m ≢ n → text_eq (code_at m) (code_at n) ≡ false
  apart m n hm hn other = elim (Bool-cases (text_eq (code_at m) (code_at n))) [
    | inl same ↦ absurd (
        charge_code_unique r.order_prefix m n (env m).moment (env n).moment (env m).draw
          (env n).draw hm hn other (text_eq_sound (code_at m) (code_at n) same))
    | inr differ ↦ differ
  ]

  -- An order with the n-th code takes none of the later codes.
  next-Fresh :
      (n hi : ℕ) (value : Text) (s : Db)
      → hi ≤ 1000
      → n < hi
      → Fresh n hi s
      → Fresh (suc n) hi (with_order (delivery_order (env n) (code_at n) k p c price value) s)
  next-Fresh n hi value s cap room fresh m lo h =
      rw
        (
          select_one-insert (has_code (code_at m)) s.orders
              (delivery_order (env n) (code_at n) k p c price value),
          fresh m (omega (arith, lo)) h,
        )
        (unfold has_code delivery_order in
          rw
            (apart n m (omega (arith, cap, room)) (omega (arith, cap, h))
              (λ e. omega (arith, e, lo)))
            refl)

  placed :
      (n : ℕ) (value : Text) (s : Db) (a : Reseller) (b : Package) (d : Customer)
      → find s.resellers k ≡ some a
      → find s.packages p ≡ some b
      → find s.customers c ≡ some d
      → select_one (has_code (code_at n)) s.orders ≡ none
      → insert_order (delivery_order (env n) (code_at n) k p c price value) s
        ≡ (ok s.orders.next_id, with_order (delivery_order (env n) (code_at n) k p c price value) s)
  unfolding delivery_order
  placed n value s a b d ha hb hd free = insert_order-completes _ s a b d free ha hb hd

  abbrev loop : ℕ → List (ℕ × ChargeCode) → Db → Result (List Delivery) × Db
  loop = sell_each env r.order_prefix k p c price

  -- What a round delivers, and the database behind it.
  delivery : ℕ → ChargeCode → Db → Delivery
  delivery n row s = record { order_id = s.orders.next_id; order_code = code_at n; code = row.code }

  next_state : ℕ → ℕ → ChargeCode → Db → Db
  next_state n i row s =
      update_code i
        (λ a. record (sell_to (env n).now c a) { sold_order_id = some s.orders.next_id })
        (with_order (delivery_order (env n) (code_at n) k p c price row.code) s)

  loop_completes :
      (n hi : ℕ) (rows : List (ℕ × ChargeCode)) (s : Db)
      → hi ≤ 1000
      → n + length rows ≤ hi
      → Referred s
      → Fresh n hi s
      → is_ok (sell_each env r.order_prefix k p c price n rows s).0 ≡ true
  unfolding sell_each next_state delivery
  loop_completes n hi [] s limit room there fresh = unfold is_ok in refl
  loop_completes n hi ((i, row) ∷ rest) s limit room ((a, ha), (b, hb), (d, hd)) fresh =
      rw (placed n row.code s a b d ha hb hd (fresh n (omega arith) (omega (arith, room)))) (
        is_ok-continue (delivery n row s) (loop (suc n) rest (next_state n i row s)) (
          loop_completes (suc n) hi rest (next_state n i row s) limit (omega (arith, room))
            (unfold next_state update_code in ((a, ha), (b, hb), (d, hd)))
            (unfold next_state update_code in
              next-Fresh n hi row.code s limit (omega (arith, room)) fresh)))

  charged_there : (amount : ℤ) (s : Db) → Referred s → Referred (charge_wallet c amount s)
  unfolding charge_wallet
  charged_there amount s (reseller, package_row, (d, hd)) = (
    reseller,
    package_row,
    (
      record d { wallet_balance = d.wallet_balance -ℤ amount },
      ground (
        arith,
        find-update s.customers c c (λ a. record a { wallet_balance = a.wallet_balance -ℤ amount }),
        hd,
      ),
    ),
  )

  -- A bulk delivery of at most 999 codes returns if the customer's wallet holds the whole price, as many
  -- codes of the package are in stock, the reseller and the package are there, and no order has one of
  -- the codes of the new orders.
  pub deliver_bulk_completes :
      (q : ℕ) (s : Db) (w : Customer) (b : Package)
      → q < 1000
      → find s.resellers k ≡ some r
      → find s.packages p ≡ some b
      → find s.customers c ≡ some w
      → price *ℤ pos q ≤ℤ w.wallet_balance
      → q ≤ available_codes p s
      → ((m : ℕ) → 1 ≤ m → m < q + 1 → select_one (has_code (code_at m)) s.orders ≡ none)
      → is_ok (deliver_bulk env (some r) k p c price q s).0 ≡ true
  deliver_bulk_completes q s w b small reseller package_row e rich stock fresh =
      unfold deliver_bulk sell_all in
      rw (e, rich_enough, enough)
        (is_ok-settle s _ (
          loop_completes 1 (q + 1) (take q (select (in_stock p) s.charge_codes))
            (charge_wallet c (price *ℤ pos q) s) (omega (arith, small)) (omega (arith, full))
            (charged_there (price *ℤ pos q) s ((r, reseller), (b, package_row), (w, e)))
            (unfold charge_wallet in fresh)))
    where
      rich_enough : ltb_ℤ w.wallet_balance (price *ℤ pos q) ≡ false
      rich_enough = ground (arith, rich)

      full : length (take q (select (in_stock p) s.charge_codes)) ≡ q
      full =
          length-take_full q (select (in_stock p) s.charge_codes)
            (rw (length-select (in_stock p) s.charge_codes) (unfold available_codes in stock))

      enough : ltb (length (take q (select (in_stock p) s.charge_codes))) q ≡ false
      enough = rw full (ground arith)
