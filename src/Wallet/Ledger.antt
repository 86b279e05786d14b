-- ===== src/Wallet/Ledger.antt =====
-- services/wallet_service.py: the balance of a reseller against the confirmed rows of
-- `wallet_transactions`.
use baste.Prelude.{
  ℕ, ◌≡◌, refl, Bool, true, Option, some, arith, inl, inr, Bool-cases, Option-cases, ◌==◌,
  if◌then◌else◌, map_option,
}
use baste.Prelude.Int.{ℤ, pos, ◌+ℤ◌, ◌-ℤ◌, ltb_ℤ, int_laws}
use baste.Text.{Text}
use baste.Money.{negate, scale, money_laws, DecimalColumn}
use baste.Table.{find}
use baste.Table.Laws.{find-update, sum_column, sum-insert, sum-update}
use baste.Schema.{Db, Reseller, WalletTransaction, TransactionStatus, TopupMethod}
use baste.Wallet.{
  deduct_commission_in_tx, refund_commission, confirm_topup, set_balance, add_transaction,
  confirm_transaction, is_pending, request_topup,
}

-- The part of a row that counts towards reseller `k`: its amount, once it is confirmed.
abbrev pub counted : ℕ → WalletTransaction → ℤ
counted k t =
    if t.reseller_id == k
    then (elim t.status [ TransactionStatus.confirmed ↦ t.amount | _ ↦ pos 0 ])
    else pos 0

abbrev pub ledger : ℕ → Db → ℤ
ledger k s = sum_column (counted k) s.wallet_transactions

-- The balance of reseller `k` less the confirmed rows of its ledger.
abbrev pub gap : ℕ → Db → Option ℤ
gap k s = map_option (λ r. r.wallet_credit_balance -ℤ ledger k s) (find s.resellers k)

add_both : (b d l : ℤ) → b +ℤ d -ℤ (l +ℤ d) ≡ b -ℤ l
add_both b d l = omega int_laws

+ℤ_zero : (l : ℤ) → l +ℤ pos 0 ≡ l
+ℤ_zero l = omega int_laws

-- Moving a balance by `d` and adding a confirmed row of `d` leaves every gap alone.
booked :
    (s : Db) (k j : ℕ) (r : Reseller) (balance : ℤ) (t : WalletTransaction)
    → find s.resellers k ≡ some r
    → t.reseller_id ≡ k
    → t.status ≡ TransactionStatus.confirmed
    → balance ≡ r.wallet_credit_balance +ℤ t.amount
    → gap j (add_transaction t (set_balance k balance s)) ≡ gap j s
unfolding add_transaction set_balance
booked s k j r balance t e own done moved = ground (
  arith,
  find-update s.resellers k j (λ r. record r { wallet_credit_balance = balance }),
  sum-insert (counted j) s.wallet_transactions t,
  +ℤ_zero (sum_column (counted j) s.wallet_transactions),
  add_both r.wallet_credit_balance t.amount (sum_column (counted j) s.wallet_transactions),
)

scale_sub : (b c : ℤ) → scale b -ℤ scale c ≡ scale (b -ℤ c)
scale_sub b c = omega (money_laws)

negate-scale : (c : ℤ) → negate (scale c) ≡ scale (negate c)
unfolding scale
negate-scale c = ground arith

sub_negate : (b c : ℤ) → b -ℤ c ≡ b +ℤ negate c
unfolding ◌+ℤ◌ ◌-ℤ◌
sub_negate b c = ground arith

module _ (column : DecimalColumn) where
  stored_balance : (b c : ℤ) → column.store (scale b -ℤ scale c) ≡ b -ℤ c
  stored_balance b c = rw scale_sub (column.store-scale (b -ℤ c))

  stored_amount : (c : ℤ) → column.store (negate (scale c)) ≡ negate c
  stored_amount c = rw negate-scale (column.store-scale (negate c))

  -- A commission of whole hundredths moves the balance by exactly the row that it adds: no
  -- reseller's balance drifts from its ledger, whatever the outcome.
  pub gap-deduct :
      (k j : ℕ) (c : ℤ) (code : Text) (s : Db)
      → gap j (deduct_commission_in_tx column k (scale c) code s).1 ≡ gap j s
  unfolding deduct_commission_in_tx
  gap-deduct k j c code s = elim (Option-cases (find s.resellers k)) [
    | inl missing ↦ rw missing
    | inr (r, e) ↦ elim (Bool-cases (short r)) [
      | inl low ↦ rw (e, low)
      | inr high ↦
          rw (e, high)
            (booked s k j r _ _ e refl refl (
              rw (stored_balance r.wallet_credit_balance c, stored_amount c)
                (sub_negate r.wallet_credit_balance c)))
    ]
  ]
    where
      short : Reseller → Bool
      short r =
          ltb_ℤ (scale r.wallet_credit_balance -ℤ scale c) (negate (scale r.credit_limit_negative))

-- A refund moves the balance by exactly the row that it adds: no reseller's balance drifts from its
-- ledger.
pub gap-refund :
    (k j : ℕ) (amount : ℤ) (code : Text) (s : Db)
    → gap j (refund_commission k amount code s).1 ≡ gap j s
unfolding refund_commission
gap-refund k j amount code s = elim (Option-cases (find s.resellers k)) [
  | inl missing ↦ rw missing
  | inr (r, e) ↦ rw e (booked s k j r _ _ e refl refl refl)
]

-- A requested top-up counts for nothing until it is confirmed.
pub gap-request_topup :
    (k j : ℕ) (amount : ℤ) (method : TopupMethod) (reference : Option Text) (s : Db)
    → gap j (request_topup k amount method reference s).1 ≡ gap j s
unfolding request_topup add_transaction
gap-request_topup k j amount method reference s = elim (Option-cases (find s.resellers k)) [
  | inl missing ↦ rw missing
  | inr (r, e) ↦ rw e (rw sum-insert (ground (arith, +ℤ_zero (ledger j s))))
]

confirmed_sum :
    (i j : ℕ) (s : Db) (t : WalletTransaction)
    → find s.wallet_transactions i ≡ some t
    → is_pending t.status ≡ true
    → ledger j (confirm_transaction i s)
      ≡ ledger j s +ℤ (if t.reseller_id == j then t.amount else pos 0)
unfolding confirm_transaction is_pending
confirmed_sum i j s t e waiting = ground (
  arith,
  +ℤ_zero (ledger j (confirm_transaction i s)),
  sum-update (counted j) s.wallet_transactions i
      (λ t. record t { status = TransactionStatus.confirmed }) t e,
)

paid_in :
    (i j : ℕ) (s : Db) (t : WalletTransaction) (r : Reseller)
    → find s.wallet_transactions i ≡ some t
    → is_pending t.status ≡ true
    → find s.resellers t.reseller_id ≡ some r
    → gap j
        (set_balance t.reseller_id (r.wallet_credit_balance +ℤ t.amount) (confirm_transaction i s))
      ≡ gap j s
unfolding confirm_transaction set_balance
paid_in i j s t r e waiting f = ground (
  arith,
  confirmed_sum i j s t e waiting,
  find-update s.resellers t.reseller_id j
      (λ q. record q { wallet_credit_balance = r.wallet_credit_balance +ℤ t.amount }),
  +ℤ_zero (ledger j s),
  add_both r.wallet_credit_balance t.amount (ledger j s),
)

-- Confirming a top-up changes the balance and the ledger alike: no reseller's balance drifts from its
-- ledger, whatever the outcome.
pub gap-confirm_topup : (i j : ℕ) (s : Db) → gap j (confirm_topup i s).1 ≡ gap j s
unfolding confirm_topup confirm_transaction set_balance
gap-confirm_topup i j s = elim (Option-cases (find s.wallet_transactions i)) [
  | inl missing ↦ rw missing
  | inr (t, e) ↦ elim (Bool-cases (is_pending t.status)) [
    | inr done ↦ rw (e, done)
    | inl waiting ↦ elim (Option-cases (find s.resellers t.reseller_id)) [
      | inl gone ↦ rw (e, waiting, gone)
      | inr (r, f) ↦ rw (e, waiting, f) (paid_in i j s t r e waiting f)
    ]
  ]
]
