-- ===== src/Wallet/Limit.antt =====
-- services/wallet_service.py: a deduction respects the negative credit limit, and is all or nothing.
use baste.Prelude.{
  ℕ, ◌≡◌, ◌⊎◌, refl, Bool, false, none, some, arith, inl, inr, Bool-cases, Option-cases, ◌==◌,
  if◌then◌else◌,
}
use baste.Prelude.Int.{ℤ, pos, ◌+ℤ◌, ◌-ℤ◌, ◌≤ℤ◌, ltb_ℤ, int_laws}
use baste.Text.{Text}
use baste.Money.{negate, scale, DecimalColumn}
use baste.Table.{find, insert}
use baste.Table.Laws.{find-update}
use baste.Schema.{Db, Reseller, WalletTransaction, TransactionType, TransactionStatus}
use baste.Exec.{ok, err, Error, insufficient_credit, not_found}
use baste.Wallet.{deduct_commission_in_tx, refund_commission, set_balance, add_transaction}

abbrev pub IsWithinLimit : Reseller → Type 0
IsWithinLimit r = negate r.credit_limit_negative ≤ℤ r.wallet_credit_balance

-- No reseller owes more than its limit.
pub record WithinLimit (s : Db) : Type 0 where
  pub at_id : (j : ℕ) (r : Reseller) → find s.resellers j ≡ some r → IsWithinLimit r

scale-negate : (a : ℤ) → negate (scale a) ≡ scale (negate a)
unfolding scale
scale-negate a = ground arith

-- What the column holds after the test of the limit passed.
store_within :
    (column : DecimalColumn) (limit new_balance : ℤ)
    → ltb_ℤ new_balance (negate (scale limit)) ≡ false
    → negate limit ≤ℤ column.store new_balance
store_within column limit new_balance h =
    rw (← column.store-scale (negate limit))
      (column.store_mono _ _ (rw (← scale-negate limit) (ground arith)))

set_balance-WithinLimit :
    (s : Db) (k : ℕ) (r : Reseller) (balance : ℤ)
    → find s.resellers k ≡ some r
    → negate r.credit_limit_negative ≤ℤ balance
    → WithinLimit s
    → WithinLimit (set_balance k balance s)
unfolding set_balance
set_balance-WithinLimit s k r balance e h w = record {
  at_id = λ j q p. ground (
    arith,
    find-update s.resellers k j (λ r. record r { wallet_credit_balance = balance }),
    w.at_id j q,
  );
}

add_transaction-WithinLimit :
    (t : WalletTransaction) (s : Db) → WithinLimit s → WithinLimit (add_transaction t s)
unfolding add_transaction
add_transaction-WithinLimit t s w = record { at_id = w.at_id }

module _ (column : DecimalColumn) (k : ℕ) (amount : ℤ) (code : Text) (s : Db) where
  deduct_missing :
      find s.resellers k ≡ none
      → deduct_commission_in_tx column k amount code s ≡ (err not_found, s)
  unfolding deduct_commission_in_tx
  deduct_missing e = rw e

  -- What a deduction that returns has written.
  pub deducted : Reseller → Db
  deducted r =
      add_transaction
        (record {
          reseller_id = k;
          kind = TransactionType.commission_deduction;
          amount = column.store (negate amount);
          method = none;
          status = TransactionStatus.confirmed;
          reference = some code;
        })
        (set_balance k (column.store (scale r.wallet_credit_balance -ℤ amount)) s)

  -- The reseller's credit covers the commission, if the limit is not passed.
  abbrev pub Covers : Reseller → Type 0
  Covers r = negate (scale r.credit_limit_negative) ≤ℤ scale r.wallet_credit_balance -ℤ amount

  pub deduct-decided :
      (r : Reseller)
      → find s.resellers k ≡ some r
      → ((¬ Covers r)
          × (deduct_commission_in_tx column k amount code s ≡ (err insufficient_credit, s)))
        ⊎ (Covers r × (deduct_commission_in_tx column k amount code s ≡ (ok tt, deducted r)))
  deduct-decided r e = elim (Bool-cases (short r)) [
    | inl low ↦
        inl (λ h. ground (arith, low, h), unfold deduct_commission_in_tx in rw (e, low) refl)
    | inr high ↦
        inr (ground (arith, high), unfold deduct_commission_in_tx deducted in rw (e, high) refl)
  ]
    where
      short : Reseller → Bool
      short r =
          ltb_ℤ (scale r.wallet_credit_balance -ℤ amount) (negate (scale r.credit_limit_negative))

  pub deduct-cases :
      (r : Reseller)
      → find s.resellers k ≡ some r
      → (deduct_commission_in_tx column k amount code s ≡ (err insufficient_credit, s))
        ⊎ (deduct_commission_in_tx column k amount code s ≡ (ok tt, deducted r))
  deduct-cases r e = elim (deduct-decided r e) [
    | inl (low, refused) ↦ inl refused
    | inr (high, paid) ↦ inr paid
  ]

  -- The row that it writes, and the balances behind it.
  abbrev pub ledger_row : WalletTransaction
  ledger_row = record {
    reseller_id = k;
    kind = TransactionType.commission_deduction;
    amount = column.store (negate amount);
    method = none;
    status = TransactionStatus.confirmed;
    reference = some code;
  }

  abbrev pub charged : Reseller → Reseller
  charged r = record r {
    wallet_credit_balance = column.store (scale r.wallet_credit_balance -ℤ amount);
  }

  pub ledger-deducted :
      (r : Reseller) → (deducted r).wallet_transactions ≡ insert s.wallet_transactions ledger_row
  unfolding deducted add_transaction set_balance
  ledger-deducted r = refl

  pub resellers-deducted :
      (r : Reseller) (j : ℕ)
      → find s.resellers k ≡ some r
      → find (deducted r).resellers j ≡ (if k == j then some (charged r) else find s.resellers j)
  unfolding deducted add_transaction set_balance
  resellers-deducted r j e = ground (
    arith,
    find-update s.resellers k j (λ q. record q {
      wallet_credit_balance = column.store (scale r.wallet_credit_balance -ℤ amount);
    }),
    e,
  )

  pub orders-deducted : (r : Reseller) → (deducted r).orders ≡ s.orders
  unfolding deducted add_transaction set_balance
  orders-deducted r = refl

  pub customers-deducted : (r : Reseller) → (deducted r).customers ≡ s.customers
  unfolding deducted add_transaction set_balance
  customers-deducted r = refl

  pub topups-deducted : (r : Reseller) → (deducted r).wallet_topups ≡ s.wallet_topups
  unfolding deducted add_transaction set_balance
  topups-deducted r = refl

  -- The reseller is still there.
  pub reseller-deducted :
      (r : Reseller)
      → find s.resellers k ≡ some r
      → (q : Reseller) × (find (deducted r).resellers k ≡ some q)
  unfolding deducted add_transaction set_balance
  reseller-deducted r e =
      let f = λ (q : Reseller). record q {
        wallet_credit_balance = column.store (scale r.wallet_credit_balance -ℤ amount);
      } in
      (f r, ground (arith, find-update s.resellers k k f))

  -- A deduction that raises has written nothing, so a caller that catches the exception inside its
  -- own transaction goes on from the state before the call.
  pub deduct_raises :
      (e : Error)
      → (deduct_commission_in_tx column k amount code s).0 ≡ err e
      → (deduct_commission_in_tx column k amount code s).1 ≡ s
  unfolding deduct_commission_in_tx
  deduct_raises e h = ground arith

  -- From a database where no reseller owes more than its limit, a deduction leads to one where none
  -- does, whether it writes or raises.
  pub deduct-WithinLimit :
      WithinLimit s → WithinLimit (deduct_commission_in_tx column k amount code s).1
  unfolding deduct_commission_in_tx
  deduct-WithinLimit w = elim (Option-cases (find s.resellers k)) [
    | inl missing ↦ rw missing w
    | inr (r, e) ↦ elim (Bool-cases (short r)) [
      | inl low ↦ rw (e, low) w
      | inr high ↦
          rw (e, high)
            (add_transaction-WithinLimit _ _
              (set_balance-WithinLimit s k r _ e (store_within column _ _ high) w))
    ]
  ]
    where
      short : Reseller → Bool
      short r =
          ltb_ℤ (scale r.wallet_credit_balance -ℤ amount) (negate (scale r.credit_limit_negative))

-- From a database where no reseller owes more than its limit, a refund of an amount that is not
-- negative leads to one where none does.
pub refund-WithinLimit :
    (k : ℕ) (amount : ℤ) (code : Text) (s : Db)
    → pos 0 ≤ℤ amount
    → WithinLimit s
    → WithinLimit (refund_commission k amount code s).1
unfolding refund_commission
refund-WithinLimit k amount code s h w = elim (Option-cases (find s.resellers k)) [
  | inl missing ↦ rw missing w
  | inr (r, e) ↦ rw e (
      add_transaction-WithinLimit _ _
        (set_balance-WithinLimit s k r _ e (raised r (w.at_id k r e)) w))
]
  where
    raised :
        (r : Reseller)
        → IsWithinLimit r
        → negate r.credit_limit_negative ≤ℤ r.wallet_credit_balance +ℤ amount
    raised r within = omega int_laws
