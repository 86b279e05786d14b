-- ===== src/Customer/Solvent/BulkSale.antt =====
-- services/charge_service.py: a bulk purchase takes at most the balance.
use baste.Prelude.{
  ℕ, suc, Option, none, some, List, [], ◌∷◌, inl, inr, Bool-cases, Option-cases, length, ltb, take,
}
use baste.Prelude.Int.{ℤ, pos, ◌*ℤ◌, ltb_ℤ}
use baste.Text.{Text}
use baste.Table.{find, select}
use baste.Schema.{Db, Reseller, ChargeCode}
use baste.Exec.{M, execute, pure, settle}
use baste.Exec.Keeps.{Keeps, keeps_rules, Keeps-bind, Keeps-pure, settle-keeps}
use baste.Orders.{Env, insert_order, charge_wallet}
use baste.Charge.{
  sell_all, in_stock, sell_each, update_code, deliver_bulk, purchase_charge_bulk, Delivery,
}
use baste.OrderCode.{generate_charge_code}
use baste.Customer.Solvent.{
  Solvent, other-Solvent, insert_order-Solvent, blocked-Solvent, charged-Solvent,
}

sold-Solvent : (i : ℕ) (f : ChargeCode → ChargeCode) → Keeps Solvent (execute (update_code i f))
unfolding update_code
sold-Solvent i f = search (other-Solvent)

module _ (env : ℕ → Env) (prefix : Text) (k p c : ℕ) (price : ℤ) where
  abbrev first_delivery : ℕ → ChargeCode → ℕ → Delivery
  first_delivery n row order_id = record {
    order_id = order_id;
    order_code = generate_charge_code prefix (some n) (env n).moment (env n).draw;
    code = row.code;
  }

  round-Solvent :
      (n i : ℕ) (row : ChargeCode) (rest : List (ℕ × ChargeCode))
      → Keeps Solvent (sell_each env prefix k p c price (suc n) rest)
      → Keeps Solvent (sell_each env prefix k p c price n ((i, row) ∷ rest))
  unfolding sell_each
  round-Solvent n i row rest more =
      Keeps-bind (insert_order _) _ (insert_order-Solvent _) (λ order_id.
        Keeps-bind (execute (update_code i _)) _ (sold-Solvent i _) (λ _.
          Keeps-bind (sell_each env prefix k p c price (suc n) rest)
            (λ ds. pure (first_delivery n row order_id ∷ ds)) more (λ ds. Keeps-pure _)))

  sell_each-Solvent :
      (n : ℕ) (rows : List (ℕ × ChargeCode))
      → Keeps Solvent (sell_each env prefix k p c price n rows)
  unfolding sell_each
  sell_each-Solvent n [] = search keeps_rules
  sell_each-Solvent n ((i, row) ∷ rest) =
      round-Solvent n i row rest (sell_each-Solvent (suc n) rest)

sell_all-Solvent :
    (env : ℕ → Env) (r : Option Reseller) (k p c : ℕ) (price : ℤ) (rows : List (ℕ × ChargeCode))
    → Keeps Solvent (sell_all env r k p c price rows)
unfolding sell_all
sell_all-Solvent env none k p c price [] = search keeps_rules
sell_all-Solvent env none k p c price (_ ∷ _) = search keeps_rules
sell_all-Solvent env (some r) k p c price rows =
    sell_each-Solvent env r.order_prefix k p c price 1 rows

deliver_bulk-Solvent :
    (env : ℕ → Env) (r : Option Reseller) (k p c : ℕ) (price : ℤ) (n : ℕ)
    → Keeps Solvent (deliver_bulk env r k p c price n)
unfolding deliver_bulk
deliver_bulk-Solvent env r k p c price n = record {
  at = λ s h. elim (Option-cases (find s.customers c)) [
    | inl missing ↦ rw missing h
    | inr (w, e) ↦ elim (Bool-cases (ltb_ℤ w.wallet_balance (price *ℤ pos n))) [
      | inl poor ↦ rw (e, poor) h
      | inr rich ↦ elim (Bool-cases (ltb (length (in_stock_rows s)) n)) [
        | inl short ↦ rw (e, rich, short) h
        | inr enough ↦
            rw (e, rich, enough)
              (settled s h (charged-Solvent c (price *ℤ pos n) s w e rich h) (in_stock_rows s))
      ]
    ]
  ];
}
  where
    in_stock_rows : Db → List (ℕ × ChargeCode)
    in_stock_rows s = take n (select (in_stock p) s.charge_codes)

    rest_of : List (ℕ × ChargeCode) → M (List Delivery)
    rest_of rows = sell_all env r k p c price rows

    settled :
        (s : Db)
        → Solvent s
        → Solvent (charge_wallet c (price *ℤ pos n) s)
        → (rows : List (ℕ × ChargeCode))
        → Solvent (settle s (rest_of rows (charge_wallet c (price *ℤ pos n) s))).1
    settled s h h' rows =
        settle-keeps Solvent s _ h ((sell_all-Solvent env r k p c price rows).at _ h')

pub bulk-Solvent : (env : ℕ → Env) (k p c n : ℕ) → Keeps Solvent (purchase_charge_bulk env k p c n)
unfolding purchase_charge_bulk
bulk-Solvent env k p c n = search (keeps_rules, blocked-Solvent, deliver_bulk-Solvent) depth 40
