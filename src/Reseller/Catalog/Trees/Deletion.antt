-- ===== src/Reseller/Catalog/Trees/Deletion.antt =====
-- handlers/reseller/catalog.py: the deletion of an operator with its folders, and the rows that it leaves.
use baste.Prelude.{
  is_in, ℕ, ◌≡◌, inl, inr, refl, ap, ◌∙◌, true, false, ◌||◌, Option, none, some, List, [], ◌∷◌,
  arith, ◌==◌, All, map_option, Bool-cases, Option-cases, subst,
}
use baste.Table.{find}
use baste.Table.Keys.{IsKeyed}
use baste.Table.Deletes.{ids, is_in-select, spared}
use baste.Schema.{Db, Category, Package, Order}
use baste.Exec.{ok, err, integrity_error}
use baste.Customer.{lies_in, subcategories_of}
use baste.Reseller.Catalog.Deletion.{
  doomed, ordered, drop_packages, parent_in, drop_categories, delete_categories,
  delete_operator_tree,
}
use baste.Reseller.Catalog.Linked.{Linked}
use baste.Reseller.Catalog.Linked.Statements.{delete_folders-Linked}
use baste.Reseller.Catalog.Trees.{
  select_one-cong, select_one-or, find-drop_packages, under, sold_under, IsShallow,
}
use baste.Reseller.Catalog.Trees.Folders.{
  in_folders, orphan, find-drop_categories, after_folders, folders-refused, folders-deleted,
  find-after_folders, categories-after_folders, ordered-after_folders,
}

module _ (i : ℕ) (s : Db) (linked : Linked s) where
  -- The folders of the operator, by their ids.
  abbrev folders : List ℕ
  folders = ids (subcategories_of i s)

  under_split : (k : ℕ) → under i s k ≡ (k == i) || is_in folders k
  unfolding under subcategories_of
  under_split k =
      rw
        (is_in-select (λ _ c. lies_in i c.parent_category_id) s.categories k
          linked.keyed_categories)
        refl

  sold_split :
      sold_under i s
      ≡ ordered (in_folders (λ k. k == i)) s || ordered (in_folders (is_in folders)) s
  unfolding sold_under ordered doomed
  sold_split = select_one-cong _ _ s.orders (everywhere s.orders.rows) ∙ select_one-or _ _ s.orders
    where
      pointwise :
          (o : Option Package)
          → (elim o [ none ↦ false | some q ↦ under i s q.category_id ])
            ≡ (elim o [ none ↦ false | some q ↦ q.category_id == i ])
              || (elim o [ none ↦ false | some q ↦ is_in folders q.category_id ])
      pointwise none = refl
      pointwise (some q) = under_split q.category_id

      everywhere :
          (l : List (ℕ × Order))
          → All
              (λ r.
                (elim (find s.packages r.1.package_id) [
                  | none ↦ false
                  | some q ↦ under i s q.category_id
                ])
                ≡ (elim (find s.packages r.1.package_id) [
                  | none ↦ false
                  | some q ↦ q.category_id == i
                ])
                  || (elim (find s.packages r.1.package_id) [
                    | none ↦ false
                    | some q ↦ is_in folders q.category_id
                  ]))
              l
      everywhere [] = tt
      everywhere (r ∷ l) = (pointwise (find s.packages r.1.package_id), everywhere l)

  -- The database after the deletion of the operator.
  pub after_tree : Db
  after_tree =
      drop_categories (λ k. k == i)
        (drop_packages (in_folders (λ k. k == i)) (after_folders folders s))

  pub tree-refused : sold_under i s ≡ true → delete_operator_tree i s ≡ (err integrity_error, s)
  unfolding delete_operator_tree delete_categories
  tree-refused sold = elim (Bool-cases (ordered (in_folders (is_in folders)) s)) [
    | inl held ↦ rw (folders-refused folders s linked held) refl
    | inr free ↦
        rw
          (
            folders-deleted folders s linked free,
            ordered-after_folders folders s linked (in_folders (λ k. k == i)) free,
            last free,
          )
          refl
  ]
    where
      last :
          ordered (in_folders (is_in folders)) s ≡ false
          → ordered (in_folders (λ k. k == i)) s ≡ true
      last free = ground (arith, sold_split, sold, free)

  pub tree-deleted : sold_under i s ≡ false → delete_operator_tree i s ≡ (ok tt, after_tree)
  unfolding delete_operator_tree delete_categories after_tree
  tree-deleted unsold =
      rw
        (
          folders-deleted folders s linked free,
          ordered-after_folders folders s linked (in_folders (λ k. k == i)) free,
          last,
        )
        refl
    where
      free : ordered (in_folders (is_in folders)) s ≡ false
      free = ground (arith, sold_split, unsold)

      last : ordered (in_folders (λ k. k == i)) s ≡ false
      last = ground (arith, sold_split, unsold)

  after_folders-IsKeyed :
      sold_under i s ≡ false
      → IsKeyed (after_folders folders s).packages × IsKeyed (after_folders folders s).categories
  after_folders-IsKeyed unsold = (kept.keyed_packages, kept.keyed_categories)
    where
      kept : Linked (after_folders folders s)
      kept =
          subst (λ r. Linked r.1)
            (folders-deleted folders s linked (ground (arith, sold_split, unsold)))
            ((delete_folders-Linked folders).at s linked)

  pub packages-after_tree :
      sold_under i s ≡ false
      → (k : ℕ)
      → find after_tree.packages k ≡ spared (λ _ q. under i s q.category_id) k (find s.packages k)
  unfolding after_tree
  packages-after_tree unsold k =
      unfold drop_categories in
      find-drop_packages (in_folders (λ j. j == i)) _ (after_folders-IsKeyed unsold).0 k
      ∙ ap (spared (in_folders (λ j. j == i)) k) (find-after_folders folders s linked k)
      ∙ both (find s.packages k)
    where
      both :
          (o : Option Package)
          → spared (in_folders (λ j. j == i)) k (spared (in_folders (is_in folders)) k o)
            ≡ spared (λ _ q. under i s q.category_id) k o
      both none = refl
      both (some q) = ground (arith, under_split q.category_id)

  -- A category outside of the tree has its parent outside, too.
  parent-outside :
      (k : ℕ) (c : Category)
      → find s.categories k ≡ some c
      → under i s k ≡ false
      → parent_in (λ j. j == i) c ≡ false
  unfolding under parent_in lies_in
  parent-outside k c found outside = elim (Option-cases c.parent_category_id) [
    | inl top ↦ rw top refl
    | inr (q, below) ↦ ground (arith, below, found, outside)
  ]

  parent-shallow :
      IsShallow s
      → (k : ℕ) (c : Category) → find s.categories k ≡ some c
      → parent_in (is_in folders) c ≡ false
  unfolding parent_in
  parent-shallow shallow k c found = elim (Option-cases c.parent_category_id) [
    | inl top ↦ rw top refl
    | inr (q, below) ↦ rw below (elim (Option-cases (find s.categories q)) [
      | inl missing ↦ ground (arith, listed q, missing)
      | inr (d, there) ↦
          ground (arith, listed q, there, top_level d (shallow k q c found below d there))
    ])
  ]
    where
      listed :
          (q : ℕ)
          → is_in folders q ≡ (elim (find s.categories q) [
            | none ↦ false
            | some d ↦ lies_in i d.parent_category_id
          ])
      listed q =
          unfold subcategories_of in
          is_in-select (λ _ c. lies_in i c.parent_category_id) s.categories q
            linked.keyed_categories

      top_level :
          (d : Category) → d.parent_category_id ≡ none → lies_in i d.parent_category_id ≡ false
      top_level d e = unfold lies_in in rw e refl

  pub categories-after_tree :
      IsShallow s
      → sold_under i s ≡ false
      → (k : ℕ) → find after_tree.categories k ≡ spared (λ j _. under i s j) k (find s.categories k)
  unfolding after_tree
  categories-after_tree shallow unsold k =
      unfold drop_packages in
      find-drop_categories (λ j. j == i) _ (after_folders-IsKeyed unsold).1 k
      ∙ ap (λ o. map_option (orphan (λ j. j == i)) (spared (λ j _. j == i) k o))
          (categories-after_folders folders s linked k)
      ∙ rest
    where
      rest :
          map_option (orphan (λ j. j == i)) (
            spared
              (λ j _. j == i)
              k
              (map_option
                (orphan (is_in folders))
                (spared (λ j _. is_in folders j) k (find s.categories k))))
          ≡ spared (λ j _. under i s j) k (find s.categories k)
      rest = elim (Option-cases (find s.categories k)) [
        | inl missing ↦ rw missing refl
        | inr (c, found) ↦ elim (Bool-cases (under i s k)) [
          | inl inside ↦ ground (arith, found, inside, under_split k)
          | inr outside ↦ ground (
            arith,
            found,
            outside,
            under_split k,
            parent-outside k c found outside,
            parent-shallow shallow k c found,
          )
        ]
      ]
