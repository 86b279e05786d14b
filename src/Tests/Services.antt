-- ===== src/Tests/Services.antt =====
-- The smaller services: the theorems at the small database.
use baste.Prelude.{
  ℕ, ◌+◌, ◌*◌, ◌<◌, ◌≡◌, ◌≢◌, ◌↔◌, refl, true, not, ◌&&◌, ◌||◌, leb, none, some, arith, ◌==◌,
  if◌then◌else◌, is_some,
}
use baste.Prelude.Int.{pos}
use baste.Table.{find}
use baste.Table.Keys.{IsKeyed}
use baste.Table.Laws.{or_else}
use baste.Schema.{OrderStatus, ReviewStatus}
use baste.Exec.{ok, pure, ◌>>=◌}
use baste.Orders.{activate_order, count_test_order, confirm_order}
use baste.Orders.TestMode.{activate_order_counts}
use baste.Disputes.{approve_dispute, set_status}
use baste.Disputes.Refund.{approve_dispute_refunds, approve_dispute_twice, refunded_by}
use baste.Blacklist.{maybe_auto_blacklist, listed_globally, confirmed_fake_receipts}
use baste.Blacklist.Auto.{maybe_auto_blacklist_lists}
use baste.Referral.{register_referral, referrer_of}
use baste.Referral.First.{register_referral_first}
use baste.Discounts.{validate_discount_code, apply_discount}
use baste.Prelude.{◌⊎◌}
use baste.Discounts.Rounding.{apply_discount_bounds}
use baste.Discounts.Validation.{Outcome, validate_discount_code-Outcome}
use baste.Prelude.Int.{pos, negsuc, ◌+ℤ◌, ◌-ℤ◌, ◌*ℤ◌, ◌≤ℤ◌}
use baste.Permissions.{order_action}
use baste.Permissions.Allowed.{MayAct, order_action_gate}
use baste.OrderCode.{generate_charge_code}
use baste.OrderCode.Unique.{charge_code_unique}
use baste.Tests.Data.{
  shop, text_a, moment, draw, reseller_1, reseller_2, order_1, order_2, dispute_1,
}

order_2_there : find shop.orders 2 ≡ some order_2
unfolding find
order_2_there = refl

reseller_2_there : find shop.resellers 2 ≡ some reseller_2
unfolding find
reseller_2_there = refl

-- The first of two test orders switches the test mode off.
activate_order_counts_example :
    let s' = (activate_order 60 2 shop).1 in
    (find s'.orders 2
      ≡ some (record order_2 { status = OrderStatus.activated; activated_at = some 60 }))
    × (find s'.resellers 2 ≡ some (count_test_order reseller_2))
    × ((count_test_order reseller_2).test_mode_orders_used ≡ 0 + 1)
    × (((count_test_order reseller_2).test_mode_enabled ≡ true) ↔ ((true ≡ true) × (0 + 2 < 2)))
activate_order_counts_example =
    activate_order_counts 60 2 shop order_2 reseller_2 order_2_there refl reseller_2_there

dispute_1_there : find shop.disputes 1 ≡ some dispute_1
unfolding find
dispute_1_there = refl

order_1_there : find shop.orders 1 ≡ some order_1
unfolding find
order_1_there = refl

reseller_1_there : find shop.resellers 1 ≡ some reseller_1
unfolding find
reseller_1_there = refl

approve_dispute_refunds_example :
    let s' = (approve_dispute (λ n. text_a) 60 1 shop).1 in
    (find s'.disputes 1
      ≡ some (record dispute_1 {
        review_status = ReviewStatus.approved;
        refunded_amount = some (pos 0);
        reviewed_at = some 60;
      }))
    × (find s'.orders 1 ≡ some (set_status OrderStatus.refunded order_1))
    × ((j : ℕ)
        → find s'.resellers j
          ≡ (if 1 == j then some (refunded_by (pos 0) reseller_1) else find shop.resellers j))
approve_dispute_refunds_example =
    approve_dispute_refunds (λ n. text_a) 60 1 shop dispute_1 order_1 reseller_1 dispute_1_there
      order_1_there reseller_1_there

approve_dispute_twice_example :
    find
      (approve_dispute (λ n. text_a) 61 1 (approve_dispute (λ n. text_a) 60 1 shop).1).1.resellers
      1
    ≡ some (refunded_by (pos 0) (refunded_by (pos 0) reseller_1))
approve_dispute_twice_example =
    approve_dispute_twice (λ n. text_a) 60 61 1 shop dispute_1 order_1 reseller_1 dispute_1_there
      order_1_there reseller_1_there

maybe_auto_blacklist_lists_example :
    let due = leb 3 (confirmed_fake_receipts 77 shop) in
    ((maybe_auto_blacklist (λ n. text_a) 77 shop).0 ≡ ok (due && not (listed_globally 77 shop)))
    × (listed_globally 78 (maybe_auto_blacklist (λ n. text_a) 77 shop).1
        ≡ listed_globally 78 shop || (77 == 78 && due))
maybe_auto_blacklist_lists_example = maybe_auto_blacklist_lists (λ n. text_a) 77 78 shop

register_referral_first_example :
    referrer_of 1 2 (register_referral 1 1 2 shop).1
    ≡ or_else (referrer_of 1 2 shop) (
        if 1 == 1 && (2 == 2 && (not (1 == 2) && is_some (find shop.resellers 1)))
        then some 1
        else none)
register_referral_first_example = register_referral_first 1 1 2 1 2 shop

discounts-IsKeyed : IsKeyed shop.discount_codes
discounts-IsKeyed = omega arith

validate_discount_code-Outcome_example :
    Outcome (λ t. t) 50 1 text_a shop (validate_discount_code (λ t. t) 50 1 text_a shop)
validate_discount_code-Outcome_example =
    validate_discount_code-Outcome (λ t. t) 50 1 text_a shop discounts-IsKeyed

-- 105 units at a percent of -10 and at one of 15.
apply_discount_bounds_example :
    let price = pos (100 * 105) in
    let left = price *ℤ (pos 10000 -ℤ negsuc 999) in
    (apply_discount price (pos 1500) ≤ℤ apply_discount price (negsuc 999))
    × (apply_discount price (pos 0) ≡ pos 105)
    × (apply_discount price (pos 10000) ≡ pos 0)
    × (pos 2000000 *ℤ apply_discount price (negsuc 999) ≤ℤ pos 2 *ℤ left +ℤ pos 1000000)
    × (pos 2 *ℤ left ≤ℤ pos 2000000 *ℤ apply_discount price (negsuc 999) +ℤ pos 1000000)
apply_discount_bounds_example = apply_discount_bounds 105 (negsuc 999) (pos 1500) (omega arith)

operators-IsKeyed : IsKeyed shop.operators
operators-IsKeyed = omega arith

-- The owner of reseller 1.
order_action_gate_example :
    (MayAct 1 11 shop
      × (order_action (confirm_order 60 1) 1 11 shop
          ≡ (confirm_order 60 1 >>= λ result. pure (some result)) shop))
    ⊎ ((¬ MayAct 1 11 shop) × (order_action (confirm_order 60 1) 1 11 shop ≡ (ok none, shop)))
order_action_gate_example = order_action_gate 1 11 shop (confirm_order 60 1) operators-IsKeyed

charge_code_unique_example :
    generate_charge_code text_a (some 1) moment draw
    ≢ generate_charge_code text_a (some 2) moment draw
charge_code_unique_example =
    charge_code_unique text_a 1 2 moment moment draw draw (omega arith) (omega arith) (omega arith)
