-- ===== src/Customer/Solvent.antt =====
-- No wallet of a customer falls below zero, under the services that the customer's handlers call:
-- the customers and the orders.
pub mod BulkSale
pub mod All
use baste.Prelude.{
  ℕ, suc, ◌≡◌, false, Option, none, some, List, [], ◌∷◌, arith, inl, inr, Bool-cases, Option-cases,
  length, ltb, take,
}
use baste.Prelude.Int.{ℤ, pos, ◌-ℤ◌, ◌*ℤ◌, ◌≤ℤ◌, ltb_ℤ, -ℤ_parts}
use baste.Text.{Text}
use baste.Money.{DecimalColumn}
use baste.Table.{find, insert, update, select}
use baste.Table.Laws.{find-update, find-insert}
use baste.Schema.{Db, Order, Customer, Reseller, ChargeCode, TopupMethod}
use baste.Exec.{M, execute, pure, settle, or_raise, type_error, ◌>>=◌}
use baste.Exec.Keeps.{Keeps, keeps_rules, Keeps-bind, Keeps-pure, Keeps-or_raise, settle-keeps}
use baste.Orders.Caught.{Keeps-caught}
use baste.Wallet.{deduct_commission_in_tx, set_balance, add_transaction}
use baste.Blacklist.{is_blacklisted}
use baste.Orders.{
  Env, get_or_create_customer, insert_order, customer_blocked, create_order, charge_wallet,
  pay_order, create_order_paid_by_wallet, take_receipt, submit_receipt, update_order,
  count_pending_orders,
}
use baste.Referral.{register_referral, insert_link}
use baste.Discounts.{increment_usage}
use baste.Charge.{in_stock, sell_each, update_code, deliver_bulk, purchase_charge_bulk, Delivery}
use baste.CustomerWallet.{create_topup_request, attach_topup_receipt, update_topup}
use baste.OrderCode.{generate_charge_code}
use baste.Chat.{World}
use baste.Customer.Receipt.{set_price}
use baste.Customer.Services.{Services}

-- No customer's wallet is below zero.
pub record Solvent (s : Db) : Type 0 where
  pub at_id : (j : ℕ) (c : Customer) → find s.customers j ≡ some c → pos 0 ≤ℤ c.wallet_balance

-- A write of other tables.
pub other-Solvent :
    (f : Db → Db) → ((s : Db) → (f s).customers ≡ s.customers) → Keeps Solvent (execute f)
other-Solvent f same = record {
  at = λ s h. record { at_id = λ j c e. h.at_id j c (rw (← same s) e) };
}

abbrev new_customer : ℕ → ℕ → Customer
new_customer k u = record { reseller_id = k; telegram_user_id = u; wallet_balance = pos 0 }

created-Solvent :
    (k u : ℕ)
    → Keeps Solvent (execute (λ s. record s { customers = insert s.customers (new_customer k u) }))
created-Solvent k u = record {
  at = λ s h. record {
    at_id = λ j c e. ground (arith, find-insert s.customers (new_customer k u) j, h.at_id j c);
  };
}

pub get_or_create-Solvent : (k u : ℕ) → Keeps Solvent (get_or_create_customer k u)
unfolding get_or_create_customer
get_or_create-Solvent k u = search (keeps_rules, created-Solvent) depth 20

insert_link-Solvent : (k i j : ℕ) → Keeps Solvent (execute (insert_link k i j))
insert_link-Solvent k i j =
    other-Solvent (insert_link k i j) (λ s. unfold insert_link in ground arith)

pub referral-Solvent : (k i j : ℕ) → Keeps Solvent (register_referral k i j)
unfolding register_referral
referral-Solvent k i j = search (keeps_rules, insert_link-Solvent) depth 10

pub insert_order-Solvent : (o : Order) → Keeps Solvent (insert_order o)
unfolding insert_order
insert_order-Solvent o = search (keeps_rules, other-Solvent) depth 20

pub blocked-Solvent : (c : Option Customer) (k : ℕ) → Keeps Solvent (customer_blocked c k)
unfolding customer_blocked is_blacklisted
blocked-Solvent none k = search keeps_rules
blocked-Solvent (some c) k = search keeps_rules depth 10

pub create_order-Solvent :
    (env : Env) (k p c : ℕ) (phone : Option Text) → Keeps Solvent (create_order env k p c phone)
unfolding create_order
create_order-Solvent env k p c phone =
    search (keeps_rules, blocked-Solvent, insert_order-Solvent) depth 30

-- Taking at most the balance.
pub charged-Solvent :
    (c : ℕ) (price : ℤ) (s : Db) (w : Customer)
    → find s.customers c ≡ some w
    → ltb_ℤ w.wallet_balance price ≡ false
    → Solvent s
    → Solvent (charge_wallet c price s)
unfolding charge_wallet
charged-Solvent c price s w e rich h = record { at_id = λ j q f. charged j q f }
  where
    taken : Customer → Customer
    taken q = record q { wallet_balance = q.wallet_balance -ℤ price }

    charged :
        (j : ℕ) (q : Customer)
        → find (update s.customers c taken) j ≡ some q
        → pos 0 ≤ℤ q.wallet_balance
    charged j q f = elim (Option-cases (find s.customers j)) [
      | inl missing ↦ ground (arith, find-update s.customers c j taken)
      | inr (a, g) ↦
          ground (
            arith,
            find-update s.customers c j taken,
            h.at_id j a g,
            -ℤ_parts a.wallet_balance price,
          )
    ]

pay_order-Solvent : (c : ℕ) (price : ℤ) (o : Order) → Keeps Solvent (pay_order c price o)
unfolding pay_order
pay_order-Solvent c price o = record {
  at = λ s h. elim (Option-cases (find s.customers c)) [
    | inl missing ↦ rw missing h
    | inr (w, e) ↦ elim (Bool-cases (ltb_ℤ w.wallet_balance price)) [
      | inl poor ↦ rw (e, poor) h
      | inr rich ↦ rw (e, rich) (settled s h (charged-Solvent c price s w e rich h))
    ]
  ];
}
  where
    settled :
        (s : Db)
        → Solvent s
        → Solvent (charge_wallet c price s)
        → Solvent (settle s ((insert_order o >>= λ _. pure tt) (charge_wallet c price s))).1
    settled s h h' = settle-keeps Solvent s _ h (
        (Keeps-bind (insert_order o) (λ _. pure tt) (insert_order-Solvent o)
            (λ _. Keeps-pure tt)).at
          _ h')

pub pay-Solvent :
    (env : Env) (k p c : ℕ) (phone : Option Text)
    → Keeps Solvent (create_order_paid_by_wallet env k p c phone)
unfolding create_order_paid_by_wallet
pay-Solvent env k p c phone = search (keeps_rules, blocked-Solvent, pay_order-Solvent) depth 40
