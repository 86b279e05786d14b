-- ===== src/Reseller/Catalog/Linked.antt =====
-- handlers/reseller/catalog.py: the references between the tables that its statements touch.
pub mod Statements
pub mod Writes
pub mod Handlers
pub mod Making
pub mod Pages
pub mod Changes
pub mod Removals
pub mod Router
use baste.Prelude.{
  ℕ, ◌≡◌, refl, Bool, true, false, Option, none, some, List, [], ◌∷◌, ◌++◌, arith, ◌==◌, is_some,
  All, All-map, keep, map, if◌then◌else◌, inl, inr, Bool-cases, Option-cases, ap,
}
use baste.Table.{Table, find, insert, update, update_rows, delete_where, update_where}
use baste.Table.Laws.{find-update, find-insert}
use baste.Table.Keys.{Keyed, IsKeyed, insert-IsKeyed, update-IsKeyed, delete_where-IsKeyed}
use baste.Table.Deletes.{spared, find-delete_where, find-update_where, select_one-none}
use baste.Schema.{Db, Category, Package, Order, ChargeCode}

-- Whether a table has the row that a foreign key names.
abbrev pub has {ℓ} : {A : Type ℓ} → Table A → ℕ → Bool
has t k = is_some (find t k)

abbrev pub has_parent : Table Category → Option ℕ → Bool
has_parent t none = true
has_parent t (some k) = has t k

-- Orders and charge codes have their package, packages their category, and categories the parent
-- that they name.
pub record Linked (s : Db) : Type 0 where
  pub keyed_categories : IsKeyed s.categories
  pub keyed_packages : IsKeyed s.packages
  pub orders_linked : All (λ r. has s.packages r.1.package_id ≡ true) s.orders.rows
  pub codes_linked : All (λ r. has s.packages r.1.package_id ≡ true) s.charge_codes.rows
  pub packages_linked : All (λ r. has s.categories r.1.category_id ≡ true) s.packages.rows
  pub parents_linked :
      All (λ r. has_parent s.categories r.1.parent_category_id ≡ true) s.categories.rows

module _ {ℓ} {A : Type ℓ} where
  pub All-insert :
      (P : ℕ × A → Type 0) (xs : List (ℕ × A)) (x : ℕ × A) → All P xs → P x → All P (xs ++ x ∷ [])
  All-insert P [] x h p = (p, tt)
  All-insert P (y ∷ xs) x h p = (h.0, All-insert P xs x h.1 p)

  -- What the kept elements satisfy, and that they pass the test.
  pub All-keep :
      (P : ℕ × A → Type 0) (q : ℕ × A → Bool) (xs : List (ℕ × A))
      → All P xs
      → All (λ x. P x × (q x ≡ true)) (keep q xs)
  unfolding keep
  All-keep P q [] h = tt
  All-keep P q (x ∷ xs) h = elim (Bool-cases (q x)) [
    | inl kept ↦ rw (kept, keep) ((h.0, kept), All-keep P q xs h.1)
    | inr dropped ↦ rw (dropped, keep) (All-keep P q xs h.1)
  ]

  pub All-both :
      (P Q : ℕ × A → Type 0) (xs : List (ℕ × A)) → All P xs → All Q xs → All (λ x. P x × Q x) xs
  All-both P Q [] h g = tt
  All-both P Q (x ∷ xs) h g = ((h.0, g.0), All-both P Q xs h.1 g.1)

  -- A change of rows that keeps a predicate.
  pub All-update :
      (P : ℕ × A → Type 0) (k : ℕ) (f : A → A) (xs : List (ℕ × A))
      → ((j : ℕ) (a : A) → P (j, a) → P (j, f a))
      → All P xs
      → All P (update_rows k f xs)
  unfolding update_rows
  All-update P k f [] g h = tt
  All-update P k f ((j, a) ∷ xs) g h = elim (Bool-cases (j == k)) [
    | inl here ↦ rw here (g j a h.0, h.1)
    | inr there ↦ rw there (h.0, All-update P k f xs g h.1)
  ]

  pub All-change :
      (P Q : ℕ × A → Type 0) (f : ℕ × A → ℕ × A)
      → ((r : ℕ × A) → P r → Q (f r))
      → (xs : List (ℕ × A)) → All P xs
      → All Q (map f xs)
  All-change P Q f g [] h = tt
  All-change P Q f g (x ∷ xs) h = (g x h.0, All-change P Q f g xs h.1)

  Keyed-map :
      (lo hi : ℕ) (f : ℕ → A → A) (l : List (ℕ × A))
      → Keyed lo hi l
      → Keyed lo hi (map (λ r. (r.0, f r.0 r.1)) l)
  Keyed-map lo hi f [] h = h
  Keyed-map lo hi f ((j, a) ∷ l) h = (h.0, Keyed-map _ hi f l h.1)

  pub update_where-IsKeyed :
      (p : ℕ → A → Bool) (f : A → A) (t : Table A) → IsKeyed t → IsKeyed (update_where p f t)
  unfolding update_where
  update_where-IsKeyed p f t h = Keyed-map 0 t.next_id (λ k a. if p k a then f a else a) t.rows h

  pub has-insert : (t : Table A) (a : A) (k : ℕ) → has t k ≡ true → has (insert t a) k ≡ true
  has-insert t a k h = elim (Option-cases (find t k)) [
    | inl missing ↦ ground (arith, h, missing)
    | inr (b, found) ↦ ground (arith, find-insert t a k, found)
  ]

  pub has-update : (t : Table A) (i : ℕ) (f : A → A) (k : ℕ) → has (update t i f) k ≡ has t k
  has-update t i f k = elim (Option-cases (find t k)) [
    | inl missing ↦ ground (arith, find-update t i k f, missing)
    | inr (b, found) ↦ ground (arith, find-update t i k f, found)
  ]

  -- A row that is there and not deleted is there afterwards.
  pub has-delete_where :
      (p : ℕ → A → Bool) (t : Table A) (k : ℕ)
      → IsKeyed t
      → has t k ≡ true
      → ((a : A) → find t k ≡ some a → p k a ≡ false)
      → has (delete_where p t) k ≡ true
  has-delete_where p t k h there stays = elim (Option-cases (find t k)) [
    | inl missing ↦ ground (arith, there, missing)
    | inr (a, found) ↦ ground (arith, find-delete_where p t k h, found, stays a found)
  ]

  pub has-update_where :
      (p : ℕ → A → Bool) (f : A → A) (t : Table A) (k : ℕ) → has (update_where p f t) k ≡ has t k
  has-update_where p f t k = elim (Option-cases (find t k)) [
    | inl missing ↦ ground (arith, find-update_where p f t k, missing)
    | inr (a, found) ↦ ground (arith, find-update_where p f t k, found)
  ]
