-- ===== src/Tests/Wallets.antt =====
-- The wallets: the theorems at the reseller and the requests of the small database.
use baste.Prelude.{ℕ, ◌≡◌, refl, true, some, arith, ◌==◌, if◌then◌else◌, map_option}
use baste.Prelude.Int.{pos, ◌+ℤ◌}
use baste.Money.{scale}
use baste.Table.{find}
use baste.Schema.{Reseller, WalletTransaction, TransactionStatus}
use baste.Exec.{ok, err, already_processed}
use baste.Wallet.{
  deduct_commission_in_tx, confirm_topup, is_pending, confirm_transaction, set_balance,
}
use baste.Wallet.Limit.{WithinLimit, deduct-WithinLimit}
use baste.Wallet.Ledger.{gap, gap-deduct, gap-confirm_topup}
use baste.Wallet.Once.{confirm_topup_credits, confirm_topup_twice}
use baste.CustomerWallet
use baste.CustomerWallet.{check_topup, apply_topup}
use baste.CustomerWallet.Confirm.{Outcome, confirm_topup-Outcome, pay_in}
use baste.CustomerWallet.Race.{confirm_topup_race}
use baste.Tests.Data.{column, shop, text_a, reseller_1, topup_1}

shop-WithinLimit : WithinLimit shop
unfolding find
shop-WithinLimit = record { at_id = λ j r e. ground arith }

deduct-WithinLimit_example :
    WithinLimit (deduct_commission_in_tx column 1 (pos 1000000) text_a shop).1
deduct-WithinLimit_example = deduct-WithinLimit column 1 (pos 1000000) text_a shop shop-WithinLimit

gap-deduct_example :
    gap 1 (deduct_commission_in_tx column 1 (scale (pos 100)) text_a shop).1 ≡ gap 1 shop
gap-deduct_example = gap-deduct column 1 1 (pos 100) text_a shop

gap-confirm_topup_example : gap 1 (confirm_topup 1 shop).1 ≡ gap 1 shop
gap-confirm_topup_example = gap-confirm_topup 1 1 shop

shop_confirms : (confirm_topup 1 shop).0 ≡ ok tt
unfolding confirm_topup find is_pending confirm_transaction set_balance
shop_confirms = refl

confirm_topup_twice_example :
    confirm_topup 1 (confirm_topup 1 shop).1 ≡ (err already_processed, (confirm_topup 1 shop).1)
confirm_topup_twice_example = confirm_topup_twice 1 shop shop_confirms

confirm_topup_credits_example :
    (t : WalletTransaction) × (r : Reseller) × (find shop.wallet_transactions 1 ≡ some t)
    × (is_pending t.status ≡ true)
    × (find shop.resellers t.reseller_id ≡ some r)
    × (find (confirm_topup 1 shop).1.wallet_transactions 1
        ≡ some (record t { status = TransactionStatus.confirmed }))
    × ((j : ℕ)
        → find (confirm_topup 1 shop).1.resellers j ≡ (
            if t.reseller_id == j
            then some (record r { wallet_credit_balance = r.wallet_credit_balance +ℤ t.amount })
            else find shop.resellers j))
confirm_topup_credits_example = confirm_topup_credits 1 shop shop_confirms

confirm_topup-Outcome_example :
    Outcome column
      (λ n. text_a)
      60
      1
      shop
      (CustomerWallet.confirm_topup column (λ n. text_a) 60 1 shop)
confirm_topup-Outcome_example = confirm_topup-Outcome column (λ n. text_a) 60 1 shop

topup_there : find shop.wallet_topups 1 ≡ some topup_1
unfolding find
topup_there = refl

topup_waits : CustomerWallet.is_pending topup_1.status ≡ true
unfolding CustomerWallet.is_pending
topup_waits = refl

reseller_there : find shop.resellers 1 ≡ some reseller_1
unfolding find
reseller_there = refl

confirm_topup_race_example :
    let first = (apply_topup column (λ n. text_a) 60 1 (topup_1, reseller_1) shop).1 in
    let second = (apply_topup column (λ n. text_a) 60 1 (topup_1, reseller_1) first).1 in
    (check_topup 1 shop ≡ (ok (topup_1, reseller_1), shop))
    × (find second.customers 1
        ≡ map_option (pay_in (pos 2000)) (map_option (pay_in (pos 2000)) (find shop.customers 1)))
confirm_topup_race_example =
    confirm_topup_race column (λ n. text_a) 60 1 topup_1 reseller_1 shop topup_there topup_waits
      reseller_there
