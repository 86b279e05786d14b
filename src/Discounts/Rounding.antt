-- ===== src/Discounts/Rounding.antt =====
-- services/discount_service.py: what a discount may do to a price.
use baste.Prelude.{ℕ, suc, ◌*◌, ◌≤◌, ◌≡◌, arith}
use baste.Prelude.Int.{ℤ, pos, negsuc, sub_ℕ, ◌+ℤ◌, ◌-ℤ◌, ◌*ℤ◌, ◌≤ℤ◌}
use baste.Discounts.{round_half_even, round_quotient, apply_discount}

round_mono : (m n : ℕ) → m ≤ n → round_half_even m 1000000 ≤ round_half_even n 1000000
unfolding round_half_even
round_mono m n h = ground arith

mul_mono : (a b c : ℕ) → b ≤ c → a * b ≤ a * c
mul_mono a b c h = grind arith

pos_mono : (a b : ℕ) → a ≤ b → pos a ≤ℤ pos b
pos_mono a b h = omega (arith, h)

negated_mono : (a b : ℕ) → b ≤ a → sub_ℕ 0 a ≤ℤ sub_ℕ 0 b
negated_mono a b h = ground arith

negated-pos : (a b : ℕ) → sub_ℕ 0 a ≤ℤ pos b
negated-pos a b = ground arith

-- An order that the rounding of numbers keeps is kept by that of integers.
quotient_mono :
    (d : ℕ)
    → ((m n : ℕ) → m ≤ n → round_half_even m d ≤ round_half_even n d)
    → (m n : ℤ) → m ≤ℤ n
    → round_quotient m d ≤ℤ round_quotient n d
unfolding round_quotient
quotient_mono d mono (pos m) (pos n) h =
    pos_mono (round_half_even m d) (round_half_even n d) (mono m n (omega (arith, h)))
quotient_mono d mono (negsuc m) (pos n) h =
    negated-pos (round_half_even (suc m) d) (round_half_even n d)
quotient_mono d mono (pos m) (negsuc n) h = absurd (omega (arith, h))
quotient_mono d mono (negsuc m) (negsuc n) h =
    negated_mono (round_half_even (suc m) d) (round_half_even (suc n) d)
      (mono (suc n) (suc m) (omega (arith, h)))

share_mono : (a : ℕ) (m n : ℤ) → m ≤ℤ n → pos a *ℤ m ≤ℤ pos a *ℤ n
unfolding ◌*ℤ◌
share_mono a (pos m) (pos n) h = ground (arith, mul_mono a m n (omega (arith, h)))
share_mono a (negsuc m) (pos n) h = ground arith
share_mono a (pos m) (negsuc n) h = absurd (omega (arith, h))
share_mono a (negsuc m) (negsuc n) h = ground (arith, mul_mono a (suc n) (suc m) (omega (arith, h)))

left_mono : (p q : ℤ) → p ≤ℤ q → pos 10000 -ℤ q ≤ℤ pos 10000 -ℤ p
unfolding ◌-ℤ◌
left_mono p q h = ground arith

discount_mono :
    (price : ℕ) (p q : ℤ) → p ≤ℤ q → apply_discount (pos price) q ≤ℤ apply_discount (pos price) p
unfolding apply_discount
discount_mono price p q h =
    quotient_mono 1000000 round_mono (pos price *ℤ (pos 10000 -ℤ q)) (pos price *ℤ (pos 10000 -ℤ p))
      (share_mono price (pos 10000 -ℤ q) (pos 10000 -ℤ p) (left_mono p q h))

full_price : (units : ℕ) → apply_discount (pos (100 * units)) (pos 0) ≡ pos units
unfolding apply_discount round_quotient round_half_even ◌*ℤ◌ ◌-ℤ◌
full_price units = ground arith

nothing : (price : ℕ) → apply_discount (pos price) (pos 10000) ≡ pos 0
unfolding apply_discount round_quotient round_half_even ◌*ℤ◌ ◌-ℤ◌
nothing price = ground arith

-- The rounded quotient of n millionths is within half a unit of them.
near_above : (n : ℤ) → pos 2000000 *ℤ round_quotient n 1000000 ≤ℤ pos 2 *ℤ n +ℤ pos 1000000
unfolding round_quotient round_half_even ◌*ℤ◌ ◌+ℤ◌
near_above (pos n) = ground arith
near_above (negsuc n) = ground arith

near_below : (n : ℤ) → pos 2 *ℤ n ≤ℤ pos 2000000 *ℤ round_quotient n 1000000 +ℤ pos 1000000
unfolding round_quotient round_half_even ◌*ℤ◌ ◌+ℤ◌
near_below (pos n) = ground arith
near_below (negsuc n) = ground arith

-- For a price of whole units that is not negative, and any percents: a larger percent never gives a
-- larger price, 0 percent leaves the price and 100 percent nothing, so that a percent between them
-- gives a price between them, and one below 0 no smaller price; and the discounted price is within half
-- a unit of the exact share.
pub apply_discount_bounds :
    (units : ℕ) (percent larger : ℤ)
    → percent ≤ℤ larger
    → let price = pos (100 * units) in
      let left = price *ℤ (pos 10000 -ℤ percent) in
      (apply_discount price larger ≤ℤ apply_discount price percent)
      × (apply_discount price (pos 0) ≡ pos units)
      × (apply_discount price (pos 10000) ≡ pos 0)
      × (pos 2000000 *ℤ apply_discount price percent ≤ℤ pos 2 *ℤ left +ℤ pos 1000000)
      × (pos 2 *ℤ left ≤ℤ pos 2000000 *ℤ apply_discount price percent +ℤ pos 1000000)
apply_discount_bounds units percent larger h = (
  discount_mono (100 * units) percent larger h,
  full_price units,
  nothing (100 * units),
  unfold apply_discount in near_above (pos (100 * units) *ℤ (pos 10000 -ℤ percent)),
  unfold apply_discount in near_below (pos (100 * units) *ℤ (pos 10000 -ℤ percent)),
)
