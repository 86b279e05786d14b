-- ===== src/Text/Decimal.antt =====
-- Numbers as text: `str(n)`, `f"{n}"`, and `int(…)` of ASCII digits.
use baste.Prelude.{
  ℕ, zero, suc, ◌+◌, ◌-◌, ◌*◌, ◌/◌, ◌%◌, ◌≤◌, ◌<◌, ◌≡◌, ◌≢◌, refl, sym, ap, ◌∙◌, true, false, ◌&&◌,
  Option, none, some, [], ◌∷◌, ◌++◌, ltb, leb, if◌then◌else◌, arith, Bool-cases, inl, inr, length,
  length-append,
}
use mathlib.Core.List.{append_assoc, append-nil}
use baste.Text.{Text}

unfoldable pub digit : ℕ → ℕ
digit n = b'0' + n % 10

-- The decimal digits of `n`, with `fuel` above `n`.
unfoldable pub decimal : ℕ → ℕ → Text
unfolding digit
decimal zero n = []
decimal (suc fuel) n =
    let more = decimal fuel (n / 10) ++ digit n ∷ [] in if ltb n 10 then digit n ∷ [] else more

unfoldable pub decimal_text : ℕ → Text
unfolding decimal
decimal_text n = decimal (n + 1) n

unfoldable pub digits_value : ℕ → Text → Option ℕ
digits_value acc [] = some acc
digits_value acc (c ∷ t) =
    let more = digits_value (10 * acc + (c - b'0')) t in
    if leb b'0' c && leb c b'9' then more else none

-- `int(text)`; `none` where it raises.
unfoldable pub int_of : Text → Option ℕ
unfolding digits_value
int_of [] = none
int_of (c ∷ t) = digits_value 0 (c ∷ t)

digit_sub : (n : ℕ) → digit n - b'0' ≡ n % 10
unfolding digit
digit_sub n = omega arith

digit_range : (n : ℕ) → leb b'0' (digit n) && leb (digit n) b'9' ≡ true
unfolding digit
digit_range n = ground arith

digits_value-digit :
    (acc n : ℕ) (t : Text) → digits_value acc (digit n ∷ t) ≡ digits_value (10 * acc + n % 10) t
unfolding digits_value
digits_value-digit acc n t = rw (digit_range, digit_sub) refl

one_digit : (n : ℕ) → ltb n 10 ≡ true → 10 * 0 + n % 10 ≡ n
one_digit n h = ground arith

shorter : (n fuel : ℕ) → ltb n 10 ≡ false → n < suc fuel → n / 10 < fuel
shorter n fuel h b = ground arith

digits_value-decimal :
    (fuel n : ℕ) (t : Text) → n < fuel → digits_value 0 (decimal fuel n ++ t) ≡ digits_value n t
unfolding decimal
digits_value-decimal zero n t h = absurd (omega arith)
digits_value-decimal (suc fuel) n t h = elim (Bool-cases (ltb n 10)) [
  | inl small ↦ rw small (digits_value-digit 0 n t ∙ ap (λ m. digits_value m t) (one_digit n small))
  | inr large ↦ rw large (
      ap (digits_value 0) (append_assoc (decimal fuel (n / 10)) (digit n ∷ []) t)
      ∙ (digits_value-decimal fuel (n / 10) (digit n ∷ t) (shorter n fuel large h)
          ∙ (digits_value-digit (n / 10) n t ∙ ap (λ m. digits_value m t) (omega arith))))
]

int_of-digits : (t : Text) (n : ℕ) → digits_value 0 t ≡ some n → t ≢ [] → int_of t ≡ some n
unfolding int_of
int_of-digits [] n h ne = absurd (ne refl)
int_of-digits (c ∷ t) n h ne = h

decimal-nonempty : (fuel n : ℕ) → 0 < length (decimal (suc fuel) n)
unfolding decimal
decimal-nonempty fuel n = ground (arith, length-append (decimal fuel (n / 10)) (digit n ∷ []))

empty_decimal : (fuel n : ℕ) → 0 < fuel → decimal fuel n ≢ []
empty_decimal zero n h e = absurd (omega arith)
empty_decimal (suc fuel) n h e = absurd (omega (arith, decimal-nonempty fuel n, ap length e))

-- `int(str(n))` is `n`.
pub int_of-decimal_text : (n : ℕ) → int_of (decimal_text n) ≡ some n
unfolding decimal_text
int_of-decimal_text n =
    int_of-digits (decimal (n + 1) n) n
      (ap (digits_value 0) (sym (append-nil (decimal (n + 1) n)))
        ∙ (digits_value-decimal (n + 1) n [] (omega arith) ∙ (unfold digits_value in refl)))
      (empty_decimal (n + 1) n (omega arith))

pub pow10 : ℕ → ℕ
pow10 zero = 1
pow10 (suc k) = 10 * pow10 k

length-decimal : (fuel k n : ℕ) → n < pow10 (suc k) → length (decimal fuel n) ≤ suc k
unfolding decimal pow10
length-decimal zero k n h = omega arith
length-decimal (suc fuel) zero n h = ground arith
length-decimal (suc fuel) (suc k) n h =
    ground
      (arith, length-append (decimal fuel (n / 10)) (digit n ∷ []), length-decimal fuel k (n / 10))

-- A number below 10 ^ (k + 1) has at most k + 1 digits.
pub length-decimal_text : (k n : ℕ) → n < pow10 (suc k) → length (decimal_text n) ≤ suc k
unfolding decimal_text
length-decimal_text k n h = length-decimal (n + 1) k n h
