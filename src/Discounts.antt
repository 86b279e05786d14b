-- ===== src/Discounts.antt =====
-- services/discount_service.py: percent discount codes. Prices are whole hundredths and percents
-- hundredths of a percent; `apply_discount` rounds to a whole unit of currency, half to even, which
-- is Decimal's default rounding.
pub mod Rounding
pub mod Validation
use baste.Prelude.{
  ℕ, zero, suc, ◌+◌, ◌-◌, ◌*◌, ◌/◌, ◌%◌, Bool, true, false, ◌&&◌, ◌||◌, not, Option, none, some,
  leb, ltb, ◌==◌, if◌then◌else◌,
}
use baste.Prelude.Int.{ℤ, pos, negsuc, sub_ℕ, ltb_ℤ, ◌-ℤ◌, ◌*ℤ◌}
use baste.Text.{Text, text_eq}
use baste.Table.{find, update, select_one}
use baste.Schema.{Db, DiscountCode}
use baste.Exec.{
  M, Error, discount_not_found, discount_expired, discount_exhausted, pure, fetch, execute,
  or_raise, raise_if, ◌>>=◌, ◌>>◌,
}

unfoldable pub is_active_code : ℕ → Text → ℕ → DiscountCode → Bool
is_active_code reseller_id code _ d =
    d.reseller_id == reseller_id && text_eq d.code code && d.is_active

-- `row["expires_at"] and row["expires_at"] < now`
unfoldable pub has_expired : ℕ → Option ℕ → Bool
has_expired now none = false
has_expired now (some t) = ltb t now

-- `row["usage_limit"] and row["usage_count"] >= row["usage_limit"]`: a limit of 0 is no limit.
unfoldable pub is_zero : ℤ → Bool
is_zero (pos zero) = true
is_zero (pos (suc n)) = false
is_zero (negsuc n) = false

unfoldable pub is_exhausted : DiscountCode → Bool
unfolding is_zero
is_exhausted d = not (is_zero d.usage_limit) && not (ltb_ℤ (pos d.usage_count) d.usage_limit)

-- `normalise` is `code.strip().upper()`.
unfoldable pub validate_discount_code : (Text → Text) → ℕ → ℕ → Text → M (ℕ × DiscountCode)
unfolding is_active_code has_expired is_exhausted
validate_discount_code normalise now reseller_id code = do
  row ←
      or_raise
        (← fetch (λ s. select_one (is_active_code reseller_id (normalise code)) s.discount_codes))
        discount_not_found
  raise_if (has_expired now row.1.expires_at) discount_expired
  raise_if (is_exhausted row.1) discount_exhausted
  pure row

-- n / d to the nearest whole number, half to even.
unfoldable pub round_half_even : ℕ → ℕ → ℕ
round_half_even n d =
    let q = n / d in
    let r = n % d in
    if ltb (2 * r) d then q else if ltb d (2 * r) then q + 1 else if q % 2 == 0 then q else q + 1

-- The same of an integer: the rounding does not depend on the sign.
unfoldable pub round_quotient : ℤ → ℕ → ℤ
unfolding round_half_even
round_quotient (pos n) d = pos (round_half_even n d)
round_quotient (negsuc n) d = sub_ℕ 0 (round_half_even (suc n) d)

-- `(price * (100 - percent) / 100).quantize(1)`, in whole units: a price of `price` hundredths and a
-- percent of `percent` hundredths give price * (10000 - percent) millionths. The percent may be
-- negative or above 100, as its column may.
unfoldable pub apply_discount : ℤ → ℤ → ℤ
unfolding round_quotient
apply_discount price percent = round_quotient (price *ℤ (pos 10000 -ℤ percent)) 1000000

unfoldable pub increment_usage : ℕ → M Unit
increment_usage discount_code_id = execute (λ s. record s {
  discount_codes =
      update s.discount_codes discount_code_id (λ d. record d { usage_count = d.usage_count + 1 });
})
