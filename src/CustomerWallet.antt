-- ===== src/CustomerWallet.antt =====
-- services/customer_wallet_service.py: the customer's wallet, `customers.wallet_balance`, and the
-- requests to raise it, `customer_wallet_topups`.
pub mod Confirm
pub mod Race
use baste.Prelude.{
  ℕ, Bool, true, false, not, Option, none, some, if◌then◌else◌, ◌++◌, List, [], ◌∷◌,
}
use baste.Prelude.Int.{ℤ, pos, ◌+ℤ◌, ◌*ℤ◌}
use baste.Text.{Text}
use baste.Money.{DecimalColumn}
use baste.Table.{find, update, insert}
use baste.Schema.{Db, WalletTopup, WalletTopupStatus, TopupMethod, Reseller, Customer}
use baste.Exec.{
  M, Error, not_found, already_processed, topup_insufficient_credit, type_error, integrity_error,
  pure, fetch, execute, or_raise, raise_if, transaction, ◌>>=◌, ◌>>◌,
}
use baste.Wallet.{deduct_commission_in_tx}
use baste.Orders.{catch_insufficient}

-- `Decimal(row["wallet_balance"]) if row else Decimal("0.00")`
unfoldable pub balance_of : Option Customer → ℤ
balance_of none = pos 0
balance_of (some c) = c.wallet_balance

unfoldable pub get_wallet_balance : ℕ → M ℤ
unfolding balance_of
get_wallet_balance customer_id = fetch (λ s. balance_of (find s.customers customer_id))

unfoldable pub update_topup : ℕ → (WalletTopup → WalletTopup) → Db → Db
update_topup topup_id f s = record s { wallet_topups = update s.wallet_topups topup_id f }

-- Its foreign keys want the reseller and the customer.
unfoldable pub create_topup_request : ℕ → ℕ → ℤ → TopupMethod → M ℕ
create_topup_request reseller_id customer_id amount method = do
  or_raise (← fetch (λ s. find s.resellers reseller_id)) integrity_error
  or_raise (← fetch (λ s. find s.customers customer_id)) integrity_error
  topup_id ← fetch (λ s. s.wallet_topups.next_id)
  execute (λ s. record s {
    wallet_topups = insert s.wallet_topups (record {
      reseller_id = reseller_id;
      customer_id = customer_id;
      amount = amount;
      method = method;
      receipt_image = none;
      status = WalletTopupStatus.pending;
      confirmed_at = none;
    });
  })
  pure topup_id

unfoldable pub attach_topup_receipt : ℕ → Text → M Unit
attach_topup_receipt topup_id receipt =
    execute (update_topup topup_id (λ t. record t { receipt_image = some receipt }))

unfoldable pub get_topup : ℕ → M (Option WalletTopup)
get_topup topup_id = fetch (λ s. find s.wallet_topups topup_id)

unfoldable pub is_pending : WalletTopupStatus → Bool
is_pending WalletTopupStatus.pending = true
is_pending WalletTopupStatus.confirmed = false
is_pending WalletTopupStatus.confirmed_insufficient_credit = false
is_pending WalletTopupStatus.rejected = false

unfoldable pub credit : ℕ → ℤ → Db → Db
credit customer_id amount s = record s {
  customers =
      update s.customers customer_id
        (λ c. record c { wallet_balance = c.wallet_balance +ℤ amount });
}

unfoldable pub settle_topup : ℕ → WalletTopupStatus → WalletTopup → WalletTopup
settle_topup now status t = record t { status = status; confirmed_at = some now }

-- The reads of `confirm_topup`, each in a transaction of its own, before the one that pays.
unfoldable pub check_topup : ℕ → M (WalletTopup × Reseller)
check_topup topup_id = do
  topup ← or_raise (← fetch (λ s. find s.wallet_topups topup_id)) not_found
  raise_if (not (is_pending topup.status)) already_processed
  reseller ← or_raise (← fetch (λ s. find s.resellers topup.reseller_id)) type_error
  pure (topup, reseller)

-- The transaction of `confirm_topup`: true if the credit of the reseller did not suffice.
-- `reference` renders `wallet-topup-{topup_id}`.
unfoldable pub pay_topup : DecimalColumn → (ℕ → Text) → ℕ → ℕ → WalletTopup → Reseller → M Bool
pay_topup column reference now topup_id topup reseller = transaction (do
  execute (credit topup.customer_id topup.amount)
  insufficient ← catch_insufficient (
      deduct_commission_in_tx column topup.reseller_id (topup.amount *ℤ reseller.commission_percent)
        (reference topup_id))
  execute (
      update_topup topup_id (
        settle_topup now (
          if insufficient
          then WalletTopupStatus.confirmed_insufficient_credit
          else WalletTopupStatus.confirmed)))
  pure insufficient)

-- What `confirm_topup` does after its reads.
unfoldable pub apply_topup :
    DecimalColumn → (ℕ → Text) → ℕ → ℕ → WalletTopup × Reseller → M (Option WalletTopup)
apply_topup column reference now topup_id (topup, reseller) = do
  insufficient ← pay_topup column reference now topup_id topup reseller
  raise_if insufficient (topup_insufficient_credit topup_id topup.reseller_id)
  get_topup topup_id

unfoldable pub confirm_topup : DecimalColumn → (ℕ → Text) → ℕ → ℕ → M (Option WalletTopup)
confirm_topup column reference now topup_id = do
  read ← check_topup topup_id
  apply_topup column reference now topup_id read

unfoldable pub reject_topup : ℕ → M Unit
reject_topup topup_id =
    execute (update_topup topup_id (λ t. record t { status = WalletTopupStatus.rejected }))
