-- ===== src/Orders/Insert.antt =====
-- The INSERT of an order either raises and changes nothing, or adds the row under the next key.
use baste.Prelude.{◌≡◌, ◌⊎◌, inl, inr, Bool-cases, Option-cases, is_some, none, some}
use baste.Table.{find, insert, select_one}
use baste.Schema.{Db, Order, Reseller, Package, Customer}
use baste.Exec.{ok, err, integrity_error}
use baste.Orders.{insert_order, has_code}

abbrev pub with_order : Order → Db → Db
with_order o s = record s { orders = insert s.orders o }

pub insert_order-cases :
    (o : Order) (s : Db)
    → (insert_order o s ≡ (err integrity_error, s))
      ⊎ (insert_order o s ≡ (ok s.orders.next_id, with_order o s))
insert_order-cases o s = elim (Bool-cases (is_some (select_one (has_code o.order_code) s.orders))) [
  | inl taken ↦ inl (unfold insert_order in rw taken)
  | inr fresh ↦ elim (Option-cases (find s.resellers o.reseller_id)) [
    | inl e ↦ inl (unfold insert_order in rw (fresh, e))
    | inr (r, e) ↦ elim (Option-cases (find s.packages o.package_id)) [
      | inl f ↦ inl (unfold insert_order in rw (fresh, e, f))
      | inr (p, f) ↦ elim (Option-cases (find s.customers o.customer_id)) [
        | inl g ↦ inl (unfold insert_order in rw (fresh, e, f, g))
        | inr (c, g) ↦ inr (unfold insert_order in rw (fresh, e, f, g))
      ]
    ]
  ]
]

-- It adds the row if no order has the code and the three rows that it refers to are there.
pub insert_order-completes :
    (o : Order) (s : Db) (r : Reseller) (p : Package) (c : Customer)
    → select_one (has_code o.order_code) s.orders ≡ none
    → find s.resellers o.reseller_id ≡ some r
    → find s.packages o.package_id ≡ some p
    → find s.customers o.customer_id ≡ some c
    → insert_order o s ≡ (ok s.orders.next_id, with_order o s)
unfolding insert_order
insert_order-completes o s r p c fresh e f g = rw (fresh, e, f, g)
