-- ===== src/Migrator/Names.antt =====
-- database/migrator.py: the names in schema_migrations, and which scripts they cover.
use baste.Prelude.{
  ◌≡◌, refl, ap, ◌∙◌, true, ◌||◌, some, arith, List, [], ◌∷◌, ◌++◌, map, keep, All, inl, inr,
  Bool-cases, Option-cases,
}
use baste.Text.{Text, text_eq_refl}
use baste.Charge.{mem_text}
use baste.Migrator.{Script, insert_name, insert_baseline, pending}

pub mem-append : (x : Text) (a b : List Text) → mem_text x (a ++ b) ≡ mem_text x a || mem_text x b
unfolding mem_text
mem-append x [] b = refl
mem-append x (y ∷ a) b = ground (arith, mem-append x a b)

abbrev pub names : List Script → List Text
names l = map (λ f. f.name) l

pub insert_some :
    (name : Text) (applied more : List Text)
    → insert_name name applied ≡ some more
    → more ≡ applied ++ name ∷ []
unfolding insert_name
insert_some name applied more h = ground arith

-- Every script has its name in the list.
abbrev pub Recorded : List Text → List Script → Type 0
Recorded applied l = All (λ f. mem_text f.name applied ≡ true) l

pub pending-Recorded :
    (applied : List Text) (l : List Script) → Recorded applied l → pending applied l ≡ []
unfolding pending keep
pending-Recorded applied [] h = refl
pending-Recorded applied (f ∷ l) h = ground (arith, h.0, pending-Recorded applied l h.1)

pub covers :
    (l : List Script) (a b : List Text)
    → ((x : Text) → mem_text x a ≡ true → mem_text x b ≡ true)
    → ((x : Text) → mem_text x (names (pending a l)) ≡ true → mem_text x b ≡ true)
    → Recorded b l
unfolding pending keep mem_text
covers [] a b old new = tt
covers (f ∷ l) a b old new = elim (Bool-cases (mem_text f.name a)) [
  | inl here ↦ (old f.name here, covers l a b old (λ x h. new x (ground arith)))
  | inr absent ↦ (
    new f.name (ground (arith, text_eq_refl f.name)),
    covers l a b old (λ x h. new x (ground arith)),
  )
]

pub append_assoc : (a b c : List Text) → (a ++ b) ++ c ≡ a ++ (b ++ c)
append_assoc [] b c = refl
append_assoc (x ∷ a) b c = ap (λ l. x ∷ l) (append_assoc a b c)

pub append_nil : (a : List Text) → a ++ [] ≡ a
append_nil [] = refl
append_nil (x ∷ a) = ap (λ l. x ∷ l) (append_nil a)

pub baseline-names :
    (l : List Script) (applied more : List Text)
    → insert_baseline l applied ≡ some more
    → more ≡ applied ++ names l
unfolding insert_baseline
baseline-names [] applied more h = cc (append_nil applied)
baseline-names (f ∷ l) applied more h = elim (Option-cases (insert_name f.name applied)) [
  | inl taken ↦ ground arith
  | inr (mid, e) ↦
      baseline-names l mid more (rw (e, insert_baseline) at h)
      ∙ (ap (λ a. a ++ names l) (insert_some f.name applied mid e)
          ∙ append_assoc applied (f.name ∷ []) (names l))
]

pending_all : (l : List Script) → pending [] l ≡ l
unfolding pending keep mem_text
pending_all [] = refl
pending_all (f ∷ l) = ap (λ r. f ∷ r) (pending_all l)

pub baseline-Recorded : (l : List Script) → Recorded (names l) l
baseline-Recorded l =
    covers l [] (names l) (unfold mem_text in λ x h. cc) (λ x h. rw pending_all at h)
