-- ===== src/Cards/Format.antt =====
-- services/payment_methods_service.py, format_card_number.
use baste.Prelude.{ℕ, zero, suc, ◌≡◌, ◌≢◌, Bool, not, [], ◌∷◌, arith, ◌==◌, All, keep}
use baste.Text.{Text}
use baste.Cards.{group_from, grouped}

pub not_blank : ℕ → Bool
not_blank c = not (c == b' ')

keep-group_from : (n : ℕ) (t : Text) → All (λ c. c ≢ b' ') t → keep not_blank (group_from n t) ≡ t
unfolding group_from keep not_blank
keep-group_from n [] h = ground arith
keep-group_from zero (c ∷ t) h = ground (arith, keep-group_from 3 t h.1)
keep-group_from (suc n) (c ∷ t) h = ground (arith, keep-group_from n t h.1)

-- Without its blanks the grouped number is the number, if that has no blank itself: the display
-- loses, adds and moves no digit.
pub keep-grouped : (t : Text) → All (λ c. c ≢ b' ') t → keep not_blank (grouped t) ≡ t
unfolding grouped
keep-grouped t h = keep-group_from 4 t h
