-- ===== src/Wallet/Once.antt =====
-- services/wallet_service.py, confirm_topup: a top-up is credited once.
use baste.Prelude.{
  ℕ, ◌≡◌, refl, true, false, some, arith, inl, inr, Bool-cases, Option-cases, ◌==◌, if◌then◌else◌,
}
use baste.Prelude.Int.{◌+ℤ◌}
use baste.Table.{find}
use baste.Table.Laws.{find-update}
use baste.Schema.{Db, Reseller, WalletTransaction, TransactionStatus}
use baste.Exec.{ok, err, already_processed}
use baste.Wallet.{confirm_topup, set_balance, confirm_transaction, is_pending}

-- The run of a confirmation whose two guards pass.
confirm_topup_run :
    (i : ℕ) (s : Db) (t : WalletTransaction) (r : Reseller)
    → find s.wallet_transactions i ≡ some t
    → is_pending t.status ≡ true
    → find s.resellers t.reseller_id ≡ some r
    → confirm_topup i s ≡ (
      ok tt,
      set_balance t.reseller_id (r.wallet_credit_balance +ℤ t.amount) (confirm_transaction i s),
    )
unfolding confirm_topup confirm_transaction
confirm_topup_run i s t r e waiting f = rw (e, waiting, f)

-- A confirmation that returns has found a pending row and its reseller, has added the amount of the
-- row to that balance and to no other, and leaves the row confirmed.
pub confirm_topup_credits :
    (i : ℕ) (s : Db)
    → (confirm_topup i s).0 ≡ ok tt
    → (t : WalletTransaction) × (r : Reseller) × (find s.wallet_transactions i ≡ some t)
      × (is_pending t.status ≡ true)
      × (find s.resellers t.reseller_id ≡ some r)
      × (find (confirm_topup i s).1.wallet_transactions i
          ≡ some (record t { status = TransactionStatus.confirmed }))
      × ((j : ℕ)
          → find (confirm_topup i s).1.resellers j ≡ (
              if t.reseller_id == j
              then some (record r { wallet_credit_balance = r.wallet_credit_balance +ℤ t.amount })
              else find s.resellers j))
unfolding confirm_topup confirm_transaction set_balance
confirm_topup_credits i s h = elim (Option-cases (find s.wallet_transactions i)) [
  | inl missing ↦ ground arith
  | inr (t, e) ↦ elim (Bool-cases (is_pending t.status)) [
    | inr done ↦ ground arith
    | inl waiting ↦ elim (Option-cases (find s.resellers t.reseller_id)) [
      | inl gone ↦ ground arith
      | inr (r, f) ↦ (
        t,
        r,
        e,
        waiting,
        f,
        rw (confirm_topup_run i s t r e waiting f, find-update) (ground arith),
        λ j. rw (confirm_topup_run i s t r e waiting f) (
            ground (
              arith,
              find-update s.resellers t.reseller_id j
                  (λ q. record q { wallet_credit_balance = r.wallet_credit_balance +ℤ t.amount }),
            )),
      )
    ]
  ]
]

confirm_topup_done :
    (i : ℕ) (s : Db) (t : WalletTransaction)
    → find s.wallet_transactions i ≡ some t
    → is_pending t.status ≡ false
    → confirm_topup i s ≡ (err already_processed, s)
unfolding confirm_topup
confirm_topup_done i s t e done = rw (e, done)

-- Once a top-up has been confirmed, confirming it again raises and changes nothing.
pub confirm_topup_twice :
    (i : ℕ) (s : Db)
    → (confirm_topup i s).0 ≡ ok tt
    → confirm_topup i (confirm_topup i s).1 ≡ (err already_processed, (confirm_topup i s).1)
unfolding is_pending
confirm_topup_twice i s h =
    let c = confirm_topup_credits i s h in
    confirm_topup_done i (confirm_topup i s).1 (record c.0 { status = TransactionStatus.confirmed })
      c.5 refl
