-- ===== src/Permissions/Allowed.antt =====
-- core/permissions_middleware.py: the handler runs for the owner and the active operators, and for
-- nobody else.
use baste.Prelude.{
  ℕ, ◌≡◌, ◌⊎◌, refl, true, false, none, some, arith, inl, inr, Bool-cases, Option-cases,
}
use baste.Table.{find, select_one}
use baste.Table.Keys.{IsKeyed, select_one-find}
use baste.Table.Queries.{select_one-misses}
use baste.Schema.{Db, Reseller, Operator}
use baste.Exec.{M, ok, pure, ◌>>=◌}
use baste.Permissions.{order_action, is_owner, is_operator_row, is_active_operator}

-- The user is the owner of the reseller, or one of its operators, who is active.
abbrev pub MayAct : ℕ → ℕ → Db → Type 0
MayAct reseller_id user s =
    ((r : Reseller) × (find s.resellers reseller_id ≡ some r) × (r.telegram_numeric_id ≡ user))
    ⊎ ((i : ℕ) × (o : Operator) × (find s.operators i ≡ some o)
        × (o.reseller_id ≡ reseller_id)
        × (o.telegram_user_id ≡ user)
        × (o.is_active ≡ true))

module _ (reseller_id user : ℕ) (s : Db) where
  owner_may : is_owner user (find s.resellers reseller_id) ≡ true → MayAct reseller_id user s
  unfolding is_owner
  owner_may own = elim (Option-cases (find s.resellers reseller_id)) [
    | inl missing ↦ ground (arith, own, missing)
    | inr (r, e) ↦ inl (r, e, ground (arith, own, e))
  ]

  operator_may :
      (i : ℕ) (o : Operator)
      → IsKeyed s.operators
      → select_one (is_operator_row reseller_id user) s.operators ≡ some (i, o)
      → MayAct reseller_id user s
  operator_may i o keyed e =
      let (f, passes) =
        select_one-find (is_operator_row reseller_id user) s.operators i o keyed e in
      unfold is_operator_row in
      inr (i, o, f, ground (arith, passes), ground (arith, passes), ground (arith, passes))

  stranger_may_not :
      is_owner user (find s.resellers reseller_id) ≡ false
      → select_one (is_operator_row reseller_id user) s.operators ≡ none
      → ¬ MayAct reseller_id user s
  unfolding is_owner is_operator_row
  stranger_may_not other stranger (inl (r, e, own)) = ground (arith, other, e, own)
  stranger_may_not other stranger (inr (i, o, e, here, same, active)) = ground (
    arith,
    select_one-misses (is_operator_row reseller_id user) s.operators i o stranger e,
    here,
    same,
    active,
  )

  -- The middleware runs the handler, on the state as it was, if the user owns the reseller or is one of
  -- its active operators; for anybody else it does nothing.
  pub order_action_gate :
      {A : Type 0} (handler : M A)
      → IsKeyed s.operators
      → (MayAct reseller_id user s
          × (order_action handler reseller_id user s
              ≡ (handler >>= λ result. pure (some result)) s))
        ⊎ ((¬ MayAct reseller_id user s) × (order_action handler reseller_id user s ≡ (ok none, s)))
  unfolding order_action is_active_operator
  order_action_gate handler keyed =
      elim (Bool-cases (is_owner user (find s.resellers reseller_id))) [
        | inl own ↦ inl (owner_may own, rw own refl)
        | inr other ↦
            elim (Option-cases (select_one (is_operator_row reseller_id user) s.operators)) [
              | inl stranger ↦ inr (stranger_may_not other stranger, rw (other, stranger) refl)
              | inr ((i, o), e) ↦ inl (operator_may i o keyed e, rw (other, e) refl)
            ]
      ]
