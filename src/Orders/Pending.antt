-- ===== src/Orders/Pending.antt =====
-- services/order_service.py: the limit on a customer's orders under review, over any sequence of
-- service calls that run one after the other.
use baste.Prelude.{
  ℕ, ◌+◌, ◌≤◌, ◌≡◌, refl, Bool, false, Option, none, some, arith, inl, inr, Option-cases, ◌==◌,
  if◌then◌else◌, leb,
}
use baste.Prelude.Int.{ℤ}
use baste.Text.{Text}
use baste.Table.{find, update, insert}
use baste.Table.Laws.{count-update, count-insert, update-missing}
use baste.Schema.{Db, Order, OrderStatus, Customer}
use baste.Exec.{execute}
use baste.Exec.Keeps.{Keeps, keeps_rules}
use baste.Blacklist.{is_blacklisted}
use baste.Orders.{
  Env, receive, update_order, pending_orders, is_pending_of, is_awaiting_review, confirm_order,
  reject_order, activate_order, increment_test_counter, create_order, create_order_paid_by_wallet,
  insert_order, pay_order, created_order, paid_order, charge_wallet, customer_blocked,
  count_test_order,
}

-- No customer has more than `limit` orders under review.
pub record Capped (limit : ℕ) (s : Db) : Type 0 where
  pub at_customer : (c : ℕ) → pending_orders c s ≤ limit

pending-same : (c : ℕ) (s s' : Db) → s'.orders ≡ s.orders → pending_orders c s' ≡ pending_orders c s
unfolding pending_orders
pending-same c s s' e = rw e

-- An update of one order that keeps its customer adds at most one, and none unless the order is
-- that customer's and ends under review.
pending-update :
    (c i : ℕ) (f : Order → Order) (s : Db) (o : Order)
    → find s.orders i ≡ some o
    → (f o).customer_id ≡ o.customer_id
    → pending_orders c (update_order i f s)
      ≤ pending_orders c s
        + (if is_awaiting_review (f o).status then (if o.customer_id == c then 1 else 0) else 0)
unfolding pending_orders update_order is_pending_of
pending-update c i f s o e same = ground (arith, count-update (is_pending_of c) s.orders i f o e)

pending-update_settled :
    (c i : ℕ) (f : Order → Order) (s : Db)
    → ((o : Order) → (f o).customer_id ≡ o.customer_id)
    → ((o : Order) → is_awaiting_review (f o).status ≡ false)
    → pending_orders c (update_order i f s) ≤ pending_orders c s
pending-update_settled c i f s same settled = elim (Option-cases (find s.orders i)) [
  | inl missing ↦
      unfold update_order pending_orders in rw (update-missing s.orders i f missing) (omega arith)
  | inr (o, e) ↦ ground (arith, pending-update c i f s o e (same o), settled o)
]

pub Capped-update :
    (limit i : ℕ) (f : Order → Order) (s : Db)
    → ((o : Order) → (f o).customer_id ≡ o.customer_id)
    → ((o : Order) → is_awaiting_review (f o).status ≡ false)
    → Capped limit s
    → Capped limit (update_order i f s)
Capped-update limit i f s same settled h = record {
  at_customer = λ c. omega (arith, pending-update_settled c i f s same settled, h.at_customer c);
}

pub Capped-same : (limit : ℕ) (s s' : Db) → s'.orders ≡ s.orders → Capped limit s → Capped limit s'
Capped-same limit s s' e h = record {
  at_customer = λ c. rw (pending-same c s s' e) (h.at_customer c);
}

-- An update that keeps the customer and the status adds none.
pending-kept :
    (c i : ℕ) (f : Order → Order) (s : Db)
    → ((o : Order) → (f o).customer_id ≡ o.customer_id)
    → ((o : Order) → (f o).status ≡ o.status)
    → pending_orders c (update_order i f s) ≡ pending_orders c s
unfolding pending_orders update_order is_pending_of
pending-kept c i f s same kept = elim (Option-cases (find s.orders i)) [
  | inl missing ↦ rw (update-missing s.orders i f missing) refl
  | inr (o, e) ↦ ground (arith, count-update (is_pending_of c) s.orders i f o e, same o, kept o)
]

pub Capped-priced :
    (limit i : ℕ) (f : Order → Order)
    → ((o : Order) → (f o).customer_id ≡ o.customer_id)
    → ((o : Order) → (f o).status ≡ o.status)
    → Keeps (Capped limit) (execute (update_order i f))
Capped-priced limit i f same kept = record {
  at = λ s h. record { at_customer = λ c. rw (pending-kept c i f s same kept) (h.at_customer c) };
}

pub Capped-receive :
    (limit i : ℕ) (status : OrderStatus) (receipt : Text) (commission : ℤ) (test : Bool) (s s' : Db)
    (o : Order)
    → s'.orders ≡ s.orders
    → find s.orders i ≡ some o
    → leb limit (pending_orders o.customer_id s) ≡ false
    → Capped limit s
    → Capped limit (update_order i (receive status receipt commission test) s')
Capped-receive limit i status receipt commission test s s' o same e room h = record {
  at_customer = λ c. grind (
    arith,
    pending-update c i (receive status receipt commission test) s' o (rw same e)
        (unfold receive in refl),
    pending-same c s s' same,
    h.at_customer c,
  );
}

pending-insert :
    (c : ℕ) (s : Db) (o : Order)
    → is_awaiting_review o.status ≡ false
    → pending_orders c (record s { orders = insert s.orders o }) ≡ pending_orders c s
unfolding pending_orders is_pending_of
pending-insert c s o settled = ground (arith, count-insert (is_pending_of c) s.orders o)

insert-Capped :
    (limit : ℕ) (o : Order)
    → is_awaiting_review o.status ≡ false
    → Keeps (Capped limit) (execute (λ s. record s { orders = insert s.orders o }))
insert-Capped limit o settled = record {
  at = λ s h. record { at_customer = λ c. rw (pending-insert c s o settled) (h.at_customer c) };
}

pub insert_order-Capped :
    (limit : ℕ) (o : Order)
    → is_awaiting_review o.status ≡ false
    → Keeps (Capped limit) (insert_order o)
unfolding insert_order
insert_order-Capped limit o settled = search (keeps_rules, insert-Capped) depth 20

pub charge_wallet-Capped :
    (limit customer_id : ℕ) (price : ℤ)
    → Keeps (Capped limit) (execute (charge_wallet customer_id price))
unfolding charge_wallet
charge_wallet-Capped limit customer_id price = record { at = λ s h. Capped-same limit s _ refl h }

is_blacklisted-Capped :
    (limit user : ℕ) (reseller_id : Option ℕ)
    → Keeps (Capped limit) (is_blacklisted user reseller_id)
unfolding is_blacklisted
is_blacklisted-Capped limit user none = search keeps_rules
is_blacklisted-Capped limit user (some k) = search keeps_rules depth 10

pub customer_blocked-Capped :
    (limit : ℕ) (c : Option Customer) (k : ℕ) → Keeps (Capped limit) (customer_blocked c k)
unfolding customer_blocked
customer_blocked-Capped limit none k = search keeps_rules
customer_blocked-Capped limit (some c) k = is_blacklisted-Capped limit c.telegram_user_id (some k)

pub create_order-Capped :
    (limit : ℕ) (env : Env) (k p c : ℕ) (phone : Option Text)
    → Keeps (Capped limit) (create_order env k p c phone)
unfolding create_order
create_order-Capped limit env k p c phone =
    search (keeps_rules, customer_blocked-Capped, created) depth 30
  where
    created :
        (code : Text) (price : ℤ)
        → Keeps (Capped limit) (insert_order (created_order env code k p c phone price))
    created code price =
        insert_order-Capped limit _ (unfold created_order is_awaiting_review in refl)

pay_order-Capped :
    (limit c : ℕ) (price : ℤ) (o : Order)
    → is_awaiting_review o.status ≡ false
    → Keeps (Capped limit) (pay_order c price o)
unfolding pay_order
pay_order-Capped limit c price o settled =
    search (keeps_rules, charge_wallet-Capped, insert_order-Capped) depth 30

pub create_order_paid_by_wallet-Capped :
    (limit : ℕ) (env : Env) (k p c : ℕ) (phone : Option Text)
    → Keeps (Capped limit) (create_order_paid_by_wallet env k p c phone)
unfolding create_order_paid_by_wallet
create_order_paid_by_wallet-Capped limit env k p c phone =
    search (keeps_rules, customer_blocked-Capped, paid) depth 40
  where
    paid :
        (code : Text) (price : ℤ)
        → Keeps (Capped limit) (pay_order c price (paid_order env code k p c phone price))
    paid code price =
        pay_order-Capped limit c price _
          (unfold paid_order created_order is_awaiting_review in refl)

pub confirm_order-Capped : (limit now i : ℕ) → Keeps (Capped limit) (confirm_order now i)
unfolding confirm_order is_awaiting_review
confirm_order-Capped limit now i = record {
  at = λ s h. Capped-update limit i _ s (λ o. refl) (λ o. refl) h;
}

pub reject_order-Capped : (limit i : ℕ) → Keeps (Capped limit) (reject_order i)
unfolding reject_order is_awaiting_review
reject_order-Capped limit i = record {
  at = λ s h. Capped-update limit i _ s (λ o. refl) (λ o. refl) h;
}

counted-Capped :
    (limit k : ℕ)
    → Keeps
        (Capped limit)
        (execute (λ s. record s { resellers = update s.resellers k count_test_order }))
counted-Capped limit k = record { at = λ s h. Capped-same limit s _ refl h }

increment-Capped : (limit k i : ℕ) → Keeps (Capped limit) (increment_test_counter k i)
unfolding increment_test_counter
increment-Capped limit k i = search (keeps_rules, counted-Capped) depth 10

activated-Capped :
    (limit now i : ℕ)
    → Keeps (Capped limit) (
        execute (
          update_order i
            (λ o. record o { status = OrderStatus.activated; activated_at = some now })))
unfolding is_awaiting_review
activated-Capped limit now i = record {
  at = λ s h. Capped-update limit i _ s (λ o. refl) (λ o. refl) h;
}

pub activate_order-Capped : (limit now i : ℕ) → Keeps (Capped limit) (activate_order now i)
unfolding activate_order
activate_order-Capped limit now i =
    search (keeps_rules, activated-Capped, increment-Capped) depth 30
