-- ===== src/Customer/Phone.antt =====
-- handlers/customer/orders.py, _normalize_phone_number: the numbers that it gives.
use baste.Prelude.{ℕ, zero, suc, ◌≡◌, refl, subst, Bool, true, some, [], ◌∷◌, arith, length, keep}
use baste.Text.{Text, codes}
use baste.Customer.{starts_with}
use baste.Customer.Purchase.{slice_from, national, mobile, normalize_phone_number}
use baste.Customer.ChargeShop.Quantity.{only_digits}

module _ (is_digit : ℕ → Bool) where
  only_digits-keep : (t : Text) → only_digits is_digit (keep is_digit t) ≡ true
  unfolding keep only_digits
  only_digits-keep [] = refl
  only_digits-keep (c ∷ t) = ground (arith, only_digits-keep t)

  only_digits-slice_from :
      (n : ℕ) (t : Text)
      → only_digits is_digit t ≡ true
      → only_digits is_digit (slice_from n t) ≡ true
  unfolding slice_from only_digits
  only_digits-slice_from zero t h = h
  only_digits-slice_from (suc n) [] h = refl
  only_digits-slice_from (suc n) (c ∷ t) h = only_digits-slice_from n t (ground arith)

  keep-only_digits : (t : Text) → only_digits is_digit t ≡ true → keep is_digit t ≡ t
  unfolding keep only_digits
  keep-only_digits [] h = refl
  keep-only_digits (c ∷ t) h = ground (arith, keep-only_digits t)

  only_digits-national :
      (t : Text)
      → is_digit b'0' ≡ true
      → only_digits is_digit t ≡ true
      → only_digits is_digit (national t) ≡ true
  unfolding national only_digits
  only_digits-national t z h =
      ground (arith, only_digits-slice_from 4 t h, only_digits-slice_from 2 t h)

  national_again : (t : Text) → starts_with (codes "09") t ≡ true → national t ≡ t
  unfolding national starts_with
  national_again [] h = refl
  national_again (c ∷ []) h = ground arith
  national_again (c ∷ d ∷ t) h = ground arith

  mobile-cases :
      (d t : Text)
      → mobile d ≡ some t
      → (d ≡ t) × (length d ≡ 11) × (starts_with (codes "09") d ≡ true)
  unfolding mobile
  mobile-cases d t h = ground arith

  mobile_again : (t : Text) → length t ≡ 11 → starts_with (codes "09") t ≡ true → mobile t ≡ some t
  unfolding mobile
  mobile_again t l f = rw (l, f) refl

  -- A number that the normalization gives has eleven digits, of which the first are 09, and is given
  -- back by the normalization as it is, if 0 is a digit.
  pub normalize_phone_number_lem :
      (raw t : Text)
      → is_digit b'0' ≡ true
      → normalize_phone_number is_digit raw ≡ some t
      → (length t ≡ 11)
        × (starts_with (codes "09") t ≡ true)
        × (only_digits is_digit t ≡ true)
        × (normalize_phone_number is_digit t ≡ some t)
  unfolding normalize_phone_number
  normalize_phone_number_lem raw t z h =
      let (q, l, f) = mobile-cases (national (keep is_digit raw)) t h in
      let digits =
        subst (λ u. only_digits is_digit u ≡ true) q
          (only_digits-national (keep is_digit raw) z (only_digits-keep raw)) in
      normal t digits (rw (← q) l) (rw (← q) f)
    where
      normal :
          (u : Text)
          → only_digits is_digit u ≡ true
          → length u ≡ 11
          → starts_with (codes "09") u ≡ true
          → (length u ≡ 11)
            × (starts_with (codes "09") u ≡ true)
            × (only_digits is_digit u ≡ true)
            × (normalize_phone_number is_digit u ≡ some u)
      normal u digits l f =
          (l, f, digits, rw (keep-only_digits u digits, national_again u f) (mobile_again u l f))
