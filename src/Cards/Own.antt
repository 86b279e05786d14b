-- ===== src/Cards/Own.antt =====
-- services/payment_methods_service.py: a reseller switches and removes its own cards only.
use baste.Prelude.{ℕ, ◌≡◌, refl, not, none, some, arith, inl, inr, Bool-cases, ◌==◌, if◌then◌else◌}
use baste.Table.{find}
use baste.Table.Laws.{find-update}
use baste.Schema.{Db, PaymentCard}
use baste.Exec.{ok}
use baste.Cards.{toggle_card, toggle_row, set_active}

-- Switching a card of another reseller, or one that does not exist, does nothing. Switching an own card
-- inverts its state, reports the new state, and leaves every other card alone.
pub toggle_card_owned :
    (i k : ℕ) (s : Db) (c : PaymentCard)
    → find s.payment_cards i ≡ some c
    → let active = (if c.reseller_id == k then not c.is_active else c.is_active) in
      ((toggle_card i k s).0 ≡ ok (if c.reseller_id == k then some active else none))
      × ((j : ℕ)
          → find (toggle_card i k s).1.payment_cards j
            ≡ (if i == j then some (record c { is_active = active }) else find s.payment_cards j))
toggle_card_owned i k s c e = elim (Bool-cases (c.reseller_id == k)) [
  | inl own ↦
      unfold toggle_card toggle_row set_active in
      rw (e, own)
        (
          refl,
          λ j. ground (
            arith,
            find-update s.payment_cards i j (λ a. record a { is_active = not c.is_active }),
          ),
        )
  | inr foreign ↦ unfold toggle_card toggle_row in rw (e, foreign) (refl, λ j. ground arith)
]
