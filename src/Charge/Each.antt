-- ===== src/Charge/Each.antt =====
-- services/charge_service.py, purchase_charge_bulk: the loop over the codes that the query returned.
use baste.Prelude.{
  ℕ, suc, ◌≡◌, ◌⊎◌, refl, ap, sym, subst, ◌∙◌, Option, none, some, arith, inl, inr, List, [], ◌∷◌,
  All, map, ◌<◌,
}
use baste.Prelude.Int.{ℤ}
use baste.Text.{Text}
use baste.Table.{find, find_row}
use baste.Table.Laws.{find-update}
use baste.Table.Keys.{Keyed, find-below}
use baste.Schema.{Db, Order, ChargeCode}
use baste.Exec.{M, ok, err, Result, integrity_error, continue, pure}
use baste.Orders.{Env}
use baste.Orders.Insert.{insert_order-cases, with_order}
use baste.OrderCode.{generate_charge_code}
use baste.Charge.{Delivery, sell_each, delivery_order, sell_to, update_code}

-- What `pure (d ∷ more)` after the rest of the loop does to its outcome.
module _ (d : Delivery) where
  state_after : (r : Result (List Delivery) × Db) → (continue (λ more. pure (d ∷ more)) r).1 ≡ r.1
  state_after (ok more, s) = refl
  state_after (err e, s) = refl

  ok_before :
      (r : Result (List Delivery) × Db) (ds : List Delivery)
      → (continue (λ more. pure (d ∷ more)) r).0 ≡ ok ds
      → (more : List Delivery) × (r.0 ≡ ok more) × (ds ≡ d ∷ more)
  ok_before (ok more, s) ds h = (more, refl, cc)
  ok_before (err e, s) ds h = cc

-- A row of the stock after its sale to customer `c`.
abbrev pub IsSoldTo : ℕ → ChargeCode → Option ChargeCode → Type 0
IsSoldTo c row after =
    (now : ℕ) × (order_id : ℕ) × (after
      ≡ some (record (sell_to now c row) { sold_order_id = some order_id }))

module _ (env : ℕ → Env) (prefix : Text) (k p c : ℕ) (price : ℤ) where
  abbrev pub loop : ℕ → List (ℕ × ChargeCode) → M (List Delivery)
  loop = sell_each env prefix k p c price

  order_code_at : ℕ → Text
  order_code_at n = generate_charge_code prefix (some n) (env n).moment (env n).draw

  sold_order : ℕ → ChargeCode → Order
  sold_order n row = delivery_order (env n) (order_code_at n) k p c price row.code

  -- The database after the first round.
  first_sold : ℕ → ℕ → ChargeCode → Db → Db
  first_sold n i row s =
      update_code i
        (λ a. record (sell_to (env n).now c a) { sold_order_id = some s.orders.next_id })
        (with_order (sold_order n row) s)

  first_delivery : ℕ → ChargeCode → Db → Delivery
  first_delivery n row s = record {
    order_id = s.orders.next_id;
    order_code = order_code_at n;
    code = row.code;
  }

  loop-cons :
      (n i : ℕ) (row : ChargeCode) (rest : List (ℕ × ChargeCode)) (s : Db)
      → (loop n ((i, row) ∷ rest) s ≡ (err integrity_error, s))
        ⊎ (loop n ((i, row) ∷ rest) s
            ≡ continue
                (λ more. pure (first_delivery n row s ∷ more))
                (loop (suc n) rest (first_sold n i row s)))
  unfolding sell_each sold_order order_code_at first_sold first_delivery
  loop-cons n i row rest s = elim (insert_order-cases (sold_order n row) s) [
    | inl failed ↦ inl (rw failed)
    | inr done ↦ inr (rw done)
  ]

  -- The loop touches no wallet, however it ends.
  pub customers-loop :
      (n : ℕ) (rows : List (ℕ × ChargeCode)) (s : Db) → (loop n rows s).1.customers ≡ s.customers
  customers-loop n [] s = unfold sell_each in refl
  customers-loop n ((i, row) ∷ rest) s =
      let same = customers-loop (suc n) rest (first_sold n i row s) in
      elim (loop-cons n i row rest s) [
        | inl failed ↦ rw failed
        | inr done ↦
            rw
              (
                done,
                state_after (first_delivery n row s) (loop (suc n) rest (first_sold n i row s)),
              )
              (same ∙ first_customers n i row s)
      ]
    where
      first_customers :
          (n i : ℕ) (row : ChargeCode) (s : Db) → (first_sold n i row s).customers ≡ s.customers
      first_customers n i row s = unfold first_sold update_code in refl

  -- A code that is not among the rows stays as it is, however the loop ends.
  pub others-loop :
      (n j : ℕ) (rows : List (ℕ × ChargeCode)) (s : Db)
      → find_row j rows ≡ none
      → find (loop n rows s).1.charge_codes j ≡ find s.charge_codes j
  others-loop n j [] s h = unfold sell_each in refl
  others-loop n j ((i, row) ∷ rest) s h =
      let same =
        others-loop (suc n) j rest (first_sold n i row s) (later_none n j i row rest s h) in
      elim (loop-cons n i row rest s) [
        | inl failed ↦ rw failed
        | inr done ↦
            rw
              (
                done,
                state_after (first_delivery n row s) (loop (suc n) rest (first_sold n i row s)),
              )
              (same ∙ first_other n j i row rest s h)
      ]
    where
      later_none :
          (n j i : ℕ) (row : ChargeCode) (rest : List (ℕ × ChargeCode)) (s : Db)
          → find_row j ((i, row) ∷ rest) ≡ none
          → find_row j rest ≡ none
      later_none n j i row rest s h = unfold find_row in ground arith

      first_other :
          (n j i : ℕ) (row : ChargeCode) (rest : List (ℕ × ChargeCode)) (s : Db)
          → find_row j ((i, row) ∷ rest) ≡ none
          → find (first_sold n i row s).charge_codes j ≡ find s.charge_codes j
      first_other n j i row rest s h =
          unfold find_row first_sold update_code in
          ground (
            arith,
            find-update s.charge_codes i j
                (λ a. record (sell_to (env n).now c a) { sold_order_id = some s.orders.next_id }),
          )

  first_found :
      (n i : ℕ) (row : ChargeCode) (s : Db)
      → find s.charge_codes i ≡ some row
      → IsSoldTo c row (find (first_sold n i row s).charge_codes i)
  unfolding first_sold update_code
  first_found n i row s e = (
    (env n).now,
    s.orders.next_id,
    ground (
      arith,
      find-update s.charge_codes i i
          (λ a. record (sell_to (env n).now c a) { sold_order_id = some s.orders.next_id }),
    ),
  )

  later_found :
      (n i lo hi : ℕ) (row : ChargeCode) (rows : List (ℕ × ChargeCode)) (s : Db)
      → i < lo
      → Keyed lo hi rows
      → All (λ r. find s.charge_codes r.0 ≡ some r.1) rows
      → All (λ r. find (first_sold n i row s).charge_codes r.0 ≡ some r.1) rows
  unfolding first_sold update_code
  later_found n i lo hi row [] s b keyed found = tt
  later_found n i lo hi row ((j, a) ∷ rest) s b keyed found = (
    ground (
      arith,
      find-update s.charge_codes i j
          (λ a. record (sell_to (env n).now c a) { sold_order_id = some s.orders.next_id }),
    ),
    later_found n i (suc j) hi row rest s (omega arith) keyed.1 found.1,
  )

  delivered_code : (n : ℕ) (row : ChargeCode) (s : Db) → (first_delivery n row s).code ≡ row.code
  unfolding first_delivery
  delivered_code n row s = refl

  -- A loop that returns has sold every row, and has delivered the code of each.
  pub sold-loop :
      (n lo hi : ℕ) (rows : List (ℕ × ChargeCode)) (s : Db) (ds : List Delivery)
      → Keyed lo hi rows
      → All (λ r. find s.charge_codes r.0 ≡ some r.1) rows
      → (loop n rows s).0 ≡ ok ds
      → All (λ r. IsSoldTo c r.1 (find (loop n rows s).1.charge_codes r.0)) rows
        × (map (λ d. d.code) ds ≡ map (λ r. r.1.code) rows)
  unfolding sell_each
  sold-loop n lo hi [] s ds keyed found h = (tt, ground arith)
  sold-loop n lo hi ((i, row) ∷ rest) s ds keyed found h = elim (loop-cons n i row rest s) [
    | inl failed ↦ cc
    | inr done ↦
        let s1 = first_sold n i row s in
        let d = first_delivery n row s in
        let (more, hm, e) = ok_before d (loop (suc n) rest s1) ds (rw done at h) in
        let ih =
          sold-loop (suc n) (suc i) hi rest s1 more keyed.1
            (later_found n i (suc i) hi row rest s (omega arith) keyed.1 found.1) hm in
        let same =
          ap (λ (r : Result (List Delivery) × Db). r.1) done
          ∙ state_after d (loop (suc n) rest s1) in
        let others =
          others-loop (suc n) i rest s1 (find-below (suc i) hi i rest keyed.1 (omega arith)) in
        (
          subst (λ (t : Db). All (λ r. IsSoldTo c r.1 (find t.charge_codes r.0)) ((i, row) ∷ rest))
              (sym same)
              (subst (IsSoldTo c row) (sym others) (first_found n i row s found.0), ih.0),
          rw e (cc (delivered_code n row s, ih.1)),
        )
  ]
