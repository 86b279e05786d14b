-- ===== src/Money.antt =====
-- Decimal amounts. A column holds hundredths; a commission, a price times a percent over 100, is
-- exact in Python and has six decimal places, so the services compute in millionths.
-- What the database does with such a value in a DECIMAL(14,2) column is a parameter.
use baste.Prelude.{◌*◌, ◌≡◌, arith}
use baste.Prelude.Int.{ℤ, pos, negsuc, pos_part, neg_part, sub_ℕ, ◌≤ℤ◌, ◌-ℤ◌, int_laws}

abbrev pub zero_money : ℤ
zero_money = pos 0

abbrev pub negate : ℤ → ℤ
negate a = sub_ℕ (neg_part a) (pos_part a)

-- Hundredths as millionths.
unfoldable pub scale : ℤ → ℤ
scale a = sub_ℕ (10000 * pos_part a) (10000 * neg_part a)

pub scale_pos : (a : ℤ) → pos_part (scale a) ≡ 10000 * pos_part a
unfolding scale
scale_pos a = ground arith

pub scale_neg : (a : ℤ) → neg_part (scale a) ≡ 10000 * neg_part a
unfolding scale
scale_neg a = ground arith

pub ruleset money_laws = (int_laws, scale_pos, scale_neg)

-- Storing in a DECIMAL(14,2) column: a value with two decimals is kept, the others are rounded to
-- one beside them, and a larger value is not stored as a smaller one.
pub record DecimalColumn : Type 0 where
  pub store : ℤ → ℤ
  pub store-scale : (a : ℤ) → store (scale a) ≡ a
  pub store_mono : (a b : ℤ) → a ≤ℤ b → store a ≤ℤ store b
