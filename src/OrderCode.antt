-- ===== src/OrderCode.antt =====
-- The order codes of services/order_service.py and services/charge_service.py. What
-- `datetime.now()` and `random.choices` return is an argument.
pub mod Unique
use baste.Prelude.{
  ℕ, zero, suc, ◌+◌, ◌*◌, ◌/◌, ◌%◌, Bool, Option, none, some, List, [], ◌∷◌, ◌++◌, ltb,
  if◌then◌else◌,
}
use baste.Text.{Text}
use baste.Text.Decimal.{digit, decimal}

pub record Moment : Type 0 where
  pub year : ℕ
  pub month : ℕ
  pub day : ℕ
  pub hour : ℕ
  pub minute : ℕ
  pub second : ℕ

-- Three draws from the 26 letters and the 10 digits, as their places in that row.
pub record Draw : Type 0 where
  pub first : ℕ
  pub second : ℕ
  pub third : ℕ

-- `%m`, `%d`, `%H`, `%M`, `%S`, and `%y` of a year
unfoldable pub two_digits : ℕ → Text
unfolding digit
two_digits n = digit (n / 10) ∷ digit n ∷ []

-- `{sequence:03d}`
unfoldable pub three_digits : ℕ → Text
unfolding digit decimal
three_digits n =
    if ltb n 1000 then digit (n / 100) ∷ digit (n / 10) ∷ digit n ∷ [] else decimal (n + 1) n

unfoldable pub letter : ℕ → ℕ
letter i = if ltb i 26 then b'A' + i else b'0' + (i % 26) % 10

unfoldable pub suffix : Draw → Text
unfolding letter
suffix d = letter d.first ∷ letter d.second ∷ letter d.third ∷ []

-- `{%y%m%d}-{%H%M%S}{suffix}`
unfoldable pub stamp : Moment → Draw → Text
unfolding two_digits suffix
stamp m d =
    two_digits m.year
    ++ two_digits m.month
    ++ two_digits m.day
    ++ b'-' ∷ (two_digits m.hour ++ two_digits m.minute ++ two_digits m.second ++ suffix d)

-- order_service._generate_order_code
unfoldable pub generate_order_code : Text → Moment → Draw → Text
unfolding stamp
generate_order_code prefix m d = prefix ++ b'-' ∷ stamp m d

sequence_text : Option ℕ → Text
unfolding three_digits
sequence_text none = []
sequence_text (some n) = three_digits n

-- charge_service._generate_order_code
unfoldable pub generate_charge_code : Text → Option ℕ → Moment → Draw → Text
unfolding stamp sequence_text
generate_charge_code prefix sequence m d =
    prefix ++ b'-' ∷ b'C' ∷ b'-' ∷ (stamp m d ++ sequence_text sequence)
