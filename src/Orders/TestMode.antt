-- ===== src/Orders/TestMode.antt =====
-- services/order_service.py, activate_order: the count of a reseller's test orders.
use baste.Prelude.{ℕ, ◌+◌, ◌<◌, ◌≡◌, ◌↔◌, refl, true, some, arith}
use baste.Table.{find, update}
use baste.Table.Laws.{find-update}
use baste.Schema.{Db, Order, OrderStatus, Reseller}
use baste.Orders.{activate_order, increment_test_counter, is_test, count_test_order, update_order}

-- Activating a test order of a known reseller marks it activated and raises the reseller's counter by
-- one; the test mode stays on exactly if it was on and the limit is at least the old counter plus
-- three. So with a limit of N it ends at the activation of test order N - 1, one order early.
pub activate_order_counts :
    (now i : ℕ) (s : Db) (o : Order) (r : Reseller)
    → find s.orders i ≡ some o
    → o.is_test_order ≡ true
    → find s.resellers o.reseller_id ≡ some r
    → let s' = (activate_order now i s).1 in
      (find s'.orders i
        ≡ some (record o { status = OrderStatus.activated; activated_at = some now }))
      × (find s'.resellers o.reseller_id ≡ some (count_test_order r))
      × ((count_test_order r).test_mode_orders_used ≡ r.test_mode_orders_used + 1)
      × (((count_test_order r).test_mode_enabled ≡ true) ↔ (
          (r.test_mode_enabled ≡ true) × (r.test_mode_orders_used + 2 < r.test_mode_order_limit)))
activate_order_counts now i s o r e test f = (
  rw run (done e),
  rw run (
      unfold update_order in
      ground (arith, find-update s.resellers o.reseller_id o.reseller_id count_test_order)),
  unfold count_test_order in refl,
  (unfold count_test_order in (λ h. ground arith), unfold count_test_order in (λ h. ground arith)),
)
  where
    mark : Order → Order
    mark o = record o { status = OrderStatus.activated; activated_at = some now }

    after : Db
    after = update_order i mark s

    done : find s.orders i ≡ some o → find after.orders i ≡ some (mark o)
    done e = unfold update_order in ground (arith, find-update s.orders i i mark)

    tested : is_test (some (mark o)) ≡ true
    tested = unfold is_test in test

    run :
        (activate_order now i s).1
        ≡ record after { resellers = update after.resellers o.reseller_id count_test_order }
    run = unfold activate_order increment_test_counter in rw (e, done e, tested)
