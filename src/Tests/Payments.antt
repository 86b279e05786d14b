-- ===== src/Tests/Payments.antt =====
-- Orders that are made and paid, over the small database.
use baste.Prelude.{◌+◌, Option, true, ◌≡◌, refl, false, some}
use baste.Table.{count_where, find}
use baste.Schema.{Db, Order}
use baste.Exec.{Result, is_ok, ok}
use baste.Orders.Race.{submit_receipt_race}
use baste.Prelude.Int.{◌-ℤ◌, ◌*ℤ◌}
use baste.Money.{scale}
use baste.Wallet.{deduct_commission_in_tx}
use baste.Orders.{
  pending_orders, is_pending_of, is_awaiting_review, accept_receipt, check_receipt, take_receipt,
  in_test_mode, caught,
}
use baste.Tests.Data.{text_a, order_1, order_2, reseller_2, column, shop, reseller_1}

reseller_found : find shop.resellers 1 ≡ some reseller_1
unfolding find
reseller_found = refl

second_found : find shop.orders 2 ≡ some order_2
unfolding find
second_found = refl

first_found : find shop.orders 1 ≡ some order_1
unfolding find
first_found = refl

other_reseller_found : find shop.resellers 2 ≡ some reseller_2
unfolding find
other_reseller_found = refl

none_under_review : pending_orders 1 shop + 1 ≡ 1
unfolding pending_orders is_pending_of count_where is_awaiting_review
none_under_review = refl

first_settled : is_awaiting_review order_1.status ≡ false
unfolding is_awaiting_review
first_settled = refl

second_settled : is_awaiting_review order_2.status ≡ false
unfolding is_awaiting_review
second_settled = refl

abbrev first_receipt : Result (Option Order) × Db
first_receipt = accept_receipt column 1 text_a (order_1, reseller_1) shop

abbrev second_receipt : Result (Option Order) × Db
second_receipt = accept_receipt column 2 text_a (order_2, reseller_2) first_receipt.1

first_returns : is_ok first_receipt.0 ≡ true
unfolding is_ok accept_receipt take_receipt in_test_mode deduct_commission_in_tx find caught ◌-ℤ◌
    ◌*ℤ◌ scale
first_returns = refl

second_returns : is_ok second_receipt.0 ≡ true
unfolding is_ok accept_receipt take_receipt in_test_mode deduct_commission_in_tx find caught
second_returns = refl

submit_receipt_race_example :
    (check_receipt 1 1 shop ≡ (ok (order_1, reseller_1), shop))
    × (check_receipt 1 2 shop ≡ (ok (order_2, reseller_2), shop))
    × (pending_orders 1 second_receipt.1 ≡ 2)
submit_receipt_race_example =
    submit_receipt_race column 1 1 2 text_a text_a order_1 order_2 reseller_1 reseller_2 shop
      first_found second_found refl refl first_settled second_settled reseller_found
      other_reseller_found none_under_review first_returns second_returns
