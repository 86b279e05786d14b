-- ===== src/OrderCode/Unique.antt =====
-- charge_service._generate_order_code: the codes of one bulk purchase differ, and every code fits
-- its column.
use baste.Prelude.{
  ℕ, ◌≡◌, ◌≢◌, ◌≤◌, ◌<◌, ◌+◌, ◌*◌, ◌/◌, ◌%◌, sym, ◌∙◌, refl, some, [], ◌∷◌, ◌++◌, length,
  length-append, arith,
}
use baste.Text.{Text}
use baste.Text.Decimal.{digit}
use baste.OrderCode.{Moment, Draw, three_digits, stamp, generate_charge_code}

append_cancel : (p q s t : Text) → length p ≡ length q → p ++ s ≡ q ++ t → s ≡ t
append_cancel [] [] s t h e = e
append_cancel [] (d ∷ q) s t h e = absurd (omega arith)
append_cancel (c ∷ p) [] s t h e = absurd (omega arith)
append_cancel (c ∷ p) (d ∷ q) s t h e = append_cancel p q s t (omega arith) (cc)

three_digits_small :
    (n : ℕ) → n < 1000 → three_digits n ≡ digit (n / 100) ∷ digit (n / 10) ∷ digit n ∷ []
unfolding three_digits
three_digits_small n h = ground arith

-- A number below 1000 out of its three decimal places.
digits_value : (n : ℕ) → n < 1000 → 100 * (n / 100 % 10) + 10 * (n / 10 % 10) + n % 10 ≡ n
digits_value n h = omega arith

digit_injective : (m n : ℕ) → digit m ≡ digit n → m % 10 ≡ n % 10
unfolding digit
digit_injective m n e = omega arith

heads_equal : (c d : ℕ) (s t : Text) → c ∷ s ≡ d ∷ t → (c ≡ d) × (s ≡ t)
heads_equal c d s t e = (cc, cc)

three_digits_injective : (m n : ℕ) → m < 1000 → n < 1000 → three_digits m ≡ three_digits n → m ≡ n
three_digits_injective m n hm hn e =
    let hundreds =
      heads_equal _ _ _ _ (sym (three_digits_small m hm) ∙ e ∙ three_digits_small n hn) in
    let tens = heads_equal _ _ _ _ hundreds.1 in
    let ones = heads_equal _ _ _ _ tens.1 in
    omega (
      arith,
      digits_value m hm,
      digits_value n hn,
      digit_injective (m / 100) (n / 100) hundreds.0,
      digit_injective (m / 10) (n / 10) tens.0,
      digit_injective m n ones.0,
    )

-- Two codes of one prefix with different sequence numbers below 1000 differ, whatever the clock and the random
-- letters were: the sequence number alone keeps the codes of a bulk purchase apart.
pub charge_code_unique :
    (prefix : Text) (i j : ℕ) (m n : Moment) (d e : Draw)
    → i < 1000
    → j < 1000
    → i ≢ j
    → generate_charge_code prefix (some i) m d ≢ generate_charge_code prefix (some j) n e
unfolding generate_charge_code
charge_code_unique prefix i j m n d e hi hj apart p = apart (
    three_digits_injective i j hi hj (
      append_cancel (stamp m d) (stamp n e) (three_digits i) (three_digits j) (omega arith)
        (cc (append_cancel prefix prefix _ _ refl p))))

-- With a prefix of at most eight characters and a sequence number below 1000 a code fits
-- `orders.order_code`, VARCHAR(32).
pub length-charge_code :
    (prefix : Text) (sequence : ℕ) (m : Moment) (d : Draw)
    → length prefix ≤ 8
    → sequence < 1000
    → length (generate_charge_code prefix (some sequence) m d) ≤ 32
unfolding generate_charge_code
length-charge_code prefix sequence m d hp hs =
    rw (length-append prefix (b'-' ∷ b'C' ∷ b'-' ∷ (stamp m d ++ three_digits sequence)))
      (ground arith)
