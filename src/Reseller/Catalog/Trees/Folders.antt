-- ===== src/Reseller/Catalog/Trees/Folders.antt =====
-- handlers/reseller/catalog.py: the database after the folders of an operator are deleted.
use baste.Prelude.{
  is_in, ℕ, ◌≡◌, inl, inr, refl, ap, ◌∙◌, Bool, true, false, Option, none, some, List, [], ◌∷◌,
  arith, map_option, if◌then◌else◌, Option-cases,
}
use baste.Table.{find}
use baste.Table.Keys.{IsKeyed, delete_where-IsKeyed}
use baste.Table.Deletes.{spared, find-delete_where, find-update_where}
use baste.Schema.{Db, Category, Package}
use baste.Exec.{ok, err, integrity_error}
use baste.Reseller.Catalog.Deletion.{
  doomed, ordered, drop_packages, delete_packages, parent_in, drop_categories, delete_categories,
  delete_folders,
}
use baste.Reseller.Catalog.Linked.{Linked}
use baste.Reseller.Catalog.Trees.{
  select_one-false, find-drop_packages, ordered-drop_packages, ordered-dropped,
}

-- The packages of some folders.
abbrev pub in_folders : (ℕ → Bool) → ℕ → Package → Bool
in_folders p k q = p q.category_id

abbrev pub orphan : (ℕ → Bool) → Category → Category
orphan p c = if parent_in p c then record c { parent_category_id = none } else c

module _ (p : ℕ → Bool) (s : Db) (h : IsKeyed s.categories) where
  pub find-drop_categories :
      (k : ℕ)
      → find (drop_categories p s).categories k
        ≡ map_option (orphan p) (spared (λ j _. p j) k (find s.categories k))
  unfolding drop_categories
  find-drop_categories k =
      find-update_where (λ _ c. parent_in p c) (λ c. record c { parent_category_id = none }) _ k
      ∙ ap (map_option (orphan p)) (find-delete_where (λ j _. p j) s.categories k h)

dropped-IsKeyed :
    (p : ℕ → Package → Bool) (s : Db) → IsKeyed s.packages → IsKeyed (drop_packages p s).packages
unfolding drop_packages
dropped-IsKeyed p s h = delete_where-IsKeyed p s.packages h

ordered-drop_categories :
    (p : ℕ → Bool) (q : ℕ → Package → Bool) (s : Db) → ordered q (drop_categories p s) ≡ ordered q s
unfolding ordered doomed drop_categories
ordered-drop_categories p q s = refl

-- The database after the folders of an operator, if the deletion is not refused.
pub after_folders : List ℕ → Db → Db
after_folders [] s = s
after_folders (i ∷ rest) s = drop_categories (is_in (i ∷ rest)) (
    drop_packages (in_folders (is_in (i ∷ rest))) (drop_packages (in_folders (is_in (i ∷ rest))) s))

nothing_ordered : (s : Db) → ordered (in_folders (is_in [])) s ≡ false
unfolding ordered is_in doomed
nothing_ordered s =
    select_one-false _ s.orders (λ j o. none_doomed (find s.packages o.package_id) o.package_id)
  where
    none_doomed : (o : Option Package) (k : ℕ) → (elim o [ none ↦ false | some q ↦ false ]) ≡ false
    none_doomed none k = refl
    none_doomed (some q) k = refl

module _ (l : List ℕ) (s : Db) (linked : Linked s) where
  pub folders-refused :
      ordered (in_folders (is_in l)) s ≡ true → delete_folders l s ≡ (err integrity_error, s)
  unfolding delete_folders delete_packages
  folders-refused = go l
    where
      go :
          (m : List ℕ)
          → ordered (in_folders (is_in m)) s ≡ true
          → delete_folders m s ≡ (err integrity_error, s)
      go [] held = ground (arith, held, nothing_ordered s)
      go (i ∷ rest) held = rw held refl

  pub folders-deleted :
      ordered (in_folders (is_in l)) s ≡ false → delete_folders l s ≡ (ok tt, after_folders l s)
  unfolding delete_folders delete_packages delete_categories after_folders
  folders-deleted = go l
    where
      go :
          (m : List ℕ)
          → ordered (in_folders (is_in m)) s ≡ false
          → delete_folders m s ≡ (ok tt, after_folders m s)
      go [] free = refl
      go (i ∷ rest) free =
          rw
            (
              free,
              ordered-dropped (in_folders (is_in (i ∷ rest))) s linked.keyed_packages
                  (in_folders (is_in (i ∷ rest))) (λ k a e. e),
            )
            refl

  pub find-after_folders :
      (k : ℕ)
      → find (after_folders l s).packages k ≡ spared (in_folders (is_in l)) k (find s.packages k)
  unfolding after_folders is_in
  find-after_folders = go l
    where
      twice :
          (p : ℕ → Package → Bool) (k : ℕ) (o : Option Package)
          → spared p k (spared p k o) ≡ spared p k o
      twice p k none = refl
      twice p k (some q) = ground arith

      go :
          (m : List ℕ) (k : ℕ)
          → find (after_folders m s).packages k
            ≡ spared (in_folders (is_in m)) k (find s.packages k)
      go [] k = ground arith
      go (i ∷ rest) k =
          unfold drop_categories in
          find-drop_packages (in_folders (is_in (i ∷ rest))) _
            (dropped-IsKeyed (in_folders (is_in (i ∷ rest))) s linked.keyed_packages) k
          ∙ ap (spared (in_folders (is_in (i ∷ rest))) k)
              (find-drop_packages (in_folders (is_in (i ∷ rest))) s linked.keyed_packages k)
          ∙ twice (in_folders (is_in (i ∷ rest))) k (find s.packages k)

  pub categories-after_folders :
      (k : ℕ)
      → find (after_folders l s).categories k
        ≡ map_option (orphan (is_in l)) (spared (λ j _. is_in l j) k (find s.categories k))
  unfolding after_folders is_in
  categories-after_folders = go l
    where
      nowhere :
          (c : Option Category) (k : ℕ)
          → c ≡ map_option (orphan (is_in [])) (spared (λ j _. is_in [] j) k c)
      nowhere none k = refl
      nowhere (some c) k =
          unfold parent_in in
          elim (Option-cases c.parent_category_id) [
            | inl top ↦ ground (arith, top)
            | inr (q, below) ↦ ground (arith, below)
          ]

      go :
          (m : List ℕ) (k : ℕ)
          → find (after_folders m s).categories k
            ≡ map_option (orphan (is_in m)) (spared (λ j _. is_in m j) k (find s.categories k))
      go [] k = nowhere (find s.categories k) k
      go (i ∷ rest) k =
          unfold drop_packages in
          find-drop_categories (is_in (i ∷ rest)) _ linked.keyed_categories k

  pub ordered-after_folders :
      (q : ℕ → Package → Bool)
      → ordered (in_folders (is_in l)) s ≡ false
      → ordered q (after_folders l s) ≡ ordered q s
  unfolding after_folders
  ordered-after_folders q = go l
    where
      go :
          (m : List ℕ)
          → ordered (in_folders (is_in m)) s ≡ false
          → ordered q (after_folders m s) ≡ ordered q s
      go [] free = refl
      go (i ∷ rest) free =
          ordered-drop_categories (is_in (i ∷ rest)) q _
          ∙ ordered-drop_packages (in_folders (is_in (i ∷ rest))) _
              (dropped-IsKeyed (in_folders (is_in (i ∷ rest))) s linked.keyed_packages) q
              (ordered-dropped (in_folders (is_in (i ∷ rest))) s linked.keyed_packages
                (in_folders (is_in (i ∷ rest))) (λ k a e. e))
          ∙ ordered-drop_packages (in_folders (is_in (i ∷ rest))) s linked.keyed_packages q free
