-- ===== src/Discounts/Validation.antt =====
-- services/discount_service.py: which codes pass, and why the others do not.
use baste.Prelude.{
  ℕ, zero, suc, ◌<◌, ◌≡◌, ◌⊎◌, refl, true, false, some, arith, inl, inr, Bool-cases, Option-cases,
  ltb,
}
use baste.Prelude.Int.{ℤ, pos, negsuc, ◌≤ℤ◌, ltb_ℤ}
use baste.Text.{Text, text_eq_sound, text_eq_refl, text_eq}
use baste.Table.{find, select_one}
use baste.Table.Keys.{IsKeyed, select_one-find}
use baste.Table.Queries.{select_one-misses}
use baste.Schema.{Db, DiscountCode}
use baste.Exec.{Result, ok, err, discount_not_found, discount_expired, discount_exhausted}
use baste.Discounts.{validate_discount_code, is_active_code, has_expired, is_exhausted, is_zero}

-- A code whose last moment is over.
abbrev pub Expired : ℕ → DiscountCode → Type 0
Expired now d = (t : ℕ) × (d.expires_at ≡ some t) × (t < now)

-- A code with a limit, which was used that often: a limit of 0 is none, and a negative one is always
-- reached.
abbrev pub Spent : DiscountCode → Type 0
Spent d = (¬ (d.usage_limit ≡ pos 0)) × (d.usage_limit ≤ℤ pos d.usage_count)

Expired-cases :
    (now : ℕ) (d : DiscountCode)
    → ((has_expired now d.expires_at ≡ true) × Expired now d)
      ⊎ ((has_expired now d.expires_at ≡ false) × (¬ Expired now d))
Expired-cases now d = elim (Option-cases d.expires_at) [
  | inl never ↦ inr (unfold has_expired in rw never refl, λ x. cc (never, x.1))
  | inr (t, e) ↦ elim (Bool-cases (ltb t now)) [
    | inl old ↦ inl (unfold has_expired in rw (e, old) refl, (t, e, ground arith))
    | inr fresh ↦
        inr (unfold has_expired in rw (e, fresh) refl, λ x. ground (arith, e, x.1, x.2, fresh))
  ]
]

zero-cases : (a : ℤ) → ((is_zero a ≡ true) × (a ≡ pos 0)) ⊎ ((is_zero a ≡ false) × (¬ (a ≡ pos 0)))
unfolding is_zero
zero-cases (pos zero) = inl (refl, refl)
zero-cases (pos (suc n)) = inr (refl, λ e. ground (arith, e))
zero-cases (negsuc n) = inr (refl, λ e. ground (arith, e))

Spent-cases :
    (d : DiscountCode)
    → ((is_exhausted d ≡ true) × Spent d) ⊎ ((is_exhausted d ≡ false) × (¬ Spent d))
unfolding is_exhausted
Spent-cases d = elim (zero-cases d.usage_limit) [
  | inl (z, e) ↦ inr (rw z refl, λ x. x.0 e)
  | inr (z, e) ↦ elim (Bool-cases (ltb_ℤ (pos d.usage_count) d.usage_limit)) [
    | inl room ↦ inr (rw (z, room) refl, λ x. ground (arith, x.1, room))
    | inr full ↦ inl (rw (z, full) refl, (e, ground (arith, full)))
  ]
]

module _ (normalise : Text → Text) (now reseller_id : ℕ) (code : Text) (s : Db) where
  -- An active code of the reseller, with the text that the customer sent.
  abbrev pub Matches : DiscountCode → Type 0
  Matches d = (d.reseller_id ≡ reseller_id) × (d.code ≡ normalise code) × (d.is_active ≡ true)

  abbrev pub IsRow : ℕ → DiscountCode → Type 0
  IsRow i d = (find s.discount_codes i ≡ some d) × Matches d

  abbrev pub Outcome : Result (ℕ × DiscountCode) × Db → Type 0
  Outcome (ok r, s') = (s' ≡ s) × IsRow r.0 r.1 × (¬ Expired now r.1) × (¬ Spent r.1)
  Outcome (err discount_not_found, s') =
      (s' ≡ s) × ((i : ℕ) (d : DiscountCode) → find s.discount_codes i ≡ some d → ¬ Matches d)
  Outcome (err discount_expired, s') =
      (s' ≡ s) × (i : ℕ) × (d : DiscountCode) × IsRow i d × Expired now d
  Outcome (err discount_exhausted, s') =
      (s' ≡ s) × (i : ℕ) × (d : DiscountCode) × IsRow i d × (¬ Expired now d) × Spent d
  Outcome (err _, s') = ⊥

  matches :
      (i : ℕ) (d : DiscountCode)
      → is_active_code reseller_id (normalise code) i d ≡ true
      → Matches d
  unfolding is_active_code
  matches i d h = (
    ground (arith, h),
    text_eq_sound d.code (normalise code) (ground (arith, h)),
    ground (arith, h),
  )

  mismatch :
      (i : ℕ) (d : DiscountCode)
      → is_active_code reseller_id (normalise code) i d ≡ false
      → ¬ Matches d
  unfolding is_active_code
  mismatch i d h (own, same, active) =
      let equal : text_eq d.code (normalise code) ≡ true =
        rw same (text_eq_refl (normalise code)) in
      ground (arith, h, own, active, equal)

  -- The validation changes nothing. If it passes a code, that is an active row of the reseller with the
  -- text that the customer sent, whose last moment is not over and which is not spent. It says that
  -- there is none if no row is active, of the reseller and with that text; that it is expired if such
  -- a row is; that it is spent if such a row is and has not expired; and it raises nothing else.
  pub validate_discount_code-Outcome :
      IsKeyed s.discount_codes → Outcome (validate_discount_code normalise now reseller_id code s)
  unfolding validate_discount_code
  validate_discount_code-Outcome keyed =
      elim (Option-cases
        (select_one (is_active_code reseller_id (normalise code)) s.discount_codes)) [
          | inl missing ↦ rw missing (
            refl,
            λ i d e. mismatch i d (
                select_one-misses (is_active_code reseller_id (normalise code)) s.discount_codes i d
                  missing e),
          )
          | inr ((i, d), e) ↦
              let row =
                select_one-find (is_active_code reseller_id (normalise code)) s.discount_codes i d
                  keyed e in
              let here : IsRow i d = (row.0, matches i d row.1) in
              elim (Expired-cases now d) [
                | inl (old, over) ↦ rw (e, old) (refl, i, d, here, over)
                | inr (fresh, lasts) ↦ elim (Spent-cases d) [
                  | inl (full, spent) ↦ rw (e, fresh, full) (refl, i, d, here, lasts, spent)
                  | inr (room, left) ↦ rw (e, fresh, room) (refl, here, lasts, left)
                ]
              ]
        ]
