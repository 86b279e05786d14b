-- ===== src/Wallet.antt =====
-- services/wallet_service.py: the commission wallet of a reseller, `resellers.wallet_credit_balance`,
-- and its ledger `wallet_transactions`.
pub mod Limit
pub mod Ledger
pub mod Once
use baste.Prelude.{ℕ, ◌+◌, Bool, true, false, Option, none, some, not}
use baste.Prelude.Int.{ℤ, ◌+ℤ◌, ◌-ℤ◌, ltb_ℤ}
use baste.Text.{Text}
use baste.Money.{negate, scale, DecimalColumn}
use baste.Table.{find, update, insert}
use baste.Schema.{Db, Reseller, WalletTransaction, TransactionType, TransactionStatus, TopupMethod}
use baste.Exec.{
  M, Error, not_found, already_processed, insufficient_credit, type_error, integrity_error, pure,
  fetch, execute, or_raise, raise_if, transaction, ◌>>=◌, ◌>>◌,
}

unfoldable pub set_balance : ℕ → ℤ → Db → Db
set_balance reseller_id balance s = record s {
  resellers = update s.resellers reseller_id (λ r. record r { wallet_credit_balance = balance });
}

unfoldable pub add_transaction : WalletTransaction → Db → Db
add_transaction t s = record s { wallet_transactions = insert s.wallet_transactions t }

unfoldable pub is_pending : TransactionStatus → Bool
is_pending TransactionStatus.pending = true
is_pending TransactionStatus.confirmed = false
is_pending TransactionStatus.rejected = false

-- `amount` is in millionths.
unfoldable pub deduct_commission_in_tx : DecimalColumn → ℕ → ℤ → Text → M Unit
deduct_commission_in_tx column reseller_id amount order_code = do
  row ← or_raise (← fetch (λ s. find s.resellers reseller_id)) not_found
  let new_balance = scale row.wallet_credit_balance -ℤ amount
  raise_if (ltb_ℤ new_balance (negate (scale row.credit_limit_negative))) insufficient_credit
  execute (set_balance reseller_id (column.store new_balance))
  execute (
      add_transaction (record {
        reseller_id = reseller_id;
        kind = TransactionType.commission_deduction;
        amount = column.store (negate amount);
        method = none;
        status = TransactionStatus.confirmed;
        reference = some order_code;
      }))

unfoldable pub deduct_commission : DecimalColumn → ℕ → ℤ → Text → M Unit
deduct_commission column reseller_id amount order_code =
    transaction (deduct_commission_in_tx column reseller_id amount order_code)

unfoldable pub refund_commission : ℕ → ℤ → Text → M Unit
refund_commission reseller_id amount order_code = transaction (do
  row ← or_raise (← fetch (λ s. find s.resellers reseller_id)) not_found
  execute (set_balance reseller_id (row.wallet_credit_balance +ℤ amount))
  execute (
      add_transaction (record {
        reseller_id = reseller_id;
        kind = TransactionType.refund;
        amount = amount;
        method = none;
        status = TransactionStatus.confirmed;
        reference = some order_code;
      })))

-- The foreign key of the new row wants the reseller to exist.
unfoldable pub request_topup : ℕ → ℤ → TopupMethod → Option Text → M ℕ
request_topup reseller_id amount method reference = transaction (do
  or_raise (← fetch (λ s. find s.resellers reseller_id)) integrity_error
  transaction_id ← fetch (λ s. s.wallet_transactions.next_id)
  execute (
      add_transaction (record {
        reseller_id = reseller_id;
        kind = TransactionType.topup;
        amount = amount;
        method = some method;
        status = TransactionStatus.pending;
        reference = reference;
      }))
  pure transaction_id)

unfoldable pub confirm_transaction : ℕ → Db → Db
confirm_transaction transaction_id s = record s {
  wallet_transactions =
      update s.wallet_transactions transaction_id
        (λ t. record t { status = TransactionStatus.confirmed });
}

unfoldable pub confirm_topup : ℕ → M Unit
confirm_topup transaction_id = transaction (do
  row ← or_raise (← fetch (λ s. find s.wallet_transactions transaction_id)) not_found
  raise_if (not (is_pending row.status)) already_processed
  execute (confirm_transaction transaction_id)
  balance_row ← or_raise (← fetch (λ s. find s.resellers row.reseller_id)) type_error
  execute (set_balance row.reseller_id (balance_row.wallet_credit_balance +ℤ row.amount)))
