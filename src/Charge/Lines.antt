-- ===== src/Charge/Lines.antt =====
-- services/charge_service.py, add_charge_codes: the loop over the typed lines.
use baste.Prelude.{
  ◌≡◌, refl, ap, ◌∙◌, Bool, true, false, ◌&&◌, not, List, [], ◌∷◌, map, keep, arith, inl, inr,
  Bool-cases, if◌then◌else◌,
}
use baste.Text.{Text, text_eq, text_eq_sound}
use baste.Text.Lines.{strip, is_empty}
use baste.Charge.{mem_text, clean_lines}

-- The first occurrences, in their order.
unfoldable pub firsts : List Text → List Text
firsts [] = []
firsts (x ∷ xs) = x ∷ keep (λ y. not (text_eq y x)) (firsts xs)

unfoldable pub stripped_lines : List Text → List Text
stripped_lines lines = keep (λ t. not (is_empty t)) (map strip lines)

module _ {A : Type 0} where
  keep-keep : (p q : A → Bool) (l : List A) → keep p (keep q l) ≡ keep (λ x. p x && q x) l
  unfolding keep
  keep-keep p q [] = refl
  keep-keep p q (x ∷ l) = ground (arith, keep-keep p q l)

  keep-same : (p q : A → Bool) → ((x : A) → p x ≡ q x) → (l : List A) → keep p l ≡ keep q l
  unfolding keep
  keep-same p q h [] = refl
  keep-same p q h (x ∷ l) = ground (arith, h x, keep-same p q h l)

abbrev unseen : List Text → Text → Bool
unseen seen y = not (mem_text y seen)

abbrev other_than : Text → Text → Bool
other_than x y = not (text_eq y x)

seen_again :
    (seen : List Text) (x y : Text)
    → mem_text x seen ≡ true
    → unseen seen y && other_than x y ≡ unseen seen y
seen_again seen x y h = elim (Bool-cases (text_eq y x)) [
  | inl same ↦ rw (text_eq_sound y x same, h) refl
  | inr differ ↦ rw differ (ground arith)
]

seen_first : (seen : List Text) (x y : Text) → unseen seen y && other_than x y ≡ unseen (x ∷ seen) y
unfolding mem_text
seen_first seen x y = ground arith

stripped-cons :
    (raw : Text) (rest : List Text)
    → stripped_lines (raw ∷ rest)
      ≡ (if is_empty (strip raw) then stripped_lines rest else strip raw ∷ stripped_lines rest)
unfolding stripped_lines keep
stripped-cons raw rest = ground arith

module _ (seen : List Text) (x : Text) (l : List Text) where
  -- What is kept of the rest, behind the first occurrence of `x`.
  kept_behind :
      keep (unseen seen) (keep (other_than x) (firsts l)) ≡ keep (unseen (x ∷ seen)) (firsts l)
  kept_behind =
      keep-keep (unseen seen) (other_than x) (firsts l)
      ∙ keep-same _ (unseen (x ∷ seen)) (seen_first seen x) (firsts l)

  firsts_again :
      mem_text x seen ≡ true → keep (unseen seen) (firsts (x ∷ l)) ≡ keep (unseen seen) (firsts l)
  unfolding firsts keep
  firsts_again h =
      rw (keep, h)
        (keep-keep (unseen seen) (other_than x) (firsts l)
          ∙ keep-same _ (unseen seen) (λ y. seen_again seen x y h) (firsts l))

  firsts_new :
      mem_text x seen ≡ false
      → keep (unseen seen) (firsts (x ∷ l)) ≡ x ∷ keep (unseen (x ∷ seen)) (firsts l)
  unfolding firsts keep
  firsts_new h = rw (keep, h) (ap (λ k. x ∷ k) kept_behind)

-- The loop, with the lines that it has seen already.
clean_lines-unseen :
    (seen lines : List Text)
    → clean_lines seen lines ≡ keep (unseen seen) (firsts (stripped_lines lines))
unfolding clean_lines
clean_lines-unseen seen [] = unfold stripped_lines firsts keep in refl
clean_lines-unseen seen (raw ∷ rest) = elim (Bool-cases (is_empty (strip raw))) [
  | inl blank ↦ rw (stripped-cons raw rest, blank) (clean_lines-unseen seen rest)
  | inr line ↦ elim (Bool-cases (mem_text (strip raw) seen)) [
    | inl again ↦
        rw
          (
            stripped-cons raw rest,
            line,
            again,
            firsts_again seen (strip raw) (stripped_lines rest) again,
          )
          (clean_lines-unseen seen rest)
    | inr new ↦
        rw
          (stripped-cons raw rest, line, new, firsts_new seen (strip raw) (stripped_lines rest) new)
          (ap (λ k. strip raw ∷ k) (clean_lines-unseen (strip raw ∷ seen) rest))
  ]
]

keep-all : {A : Type 0} (p : A → Bool) → ((x : A) → p x ≡ true) → (l : List A) → keep p l ≡ l
unfolding keep
keep-all p h [] = refl
keep-all p h (x ∷ l) = ground (arith, h x, keep-all p h l)

-- The codes that a reseller's text adds are the first occurrences, in their order, of its lines
-- without the blanks around them, the empty ones left out.
pub clean_lines-firsts : (lines : List Text) → clean_lines [] lines ≡ firsts (stripped_lines lines)
unfolding mem_text
clean_lines-firsts lines =
    clean_lines-unseen [] lines ∙ keep-all (unseen []) (λ y. refl) (firsts (stripped_lines lines))
