-- ===== src/Reseller/Catalog/Trees/Outcome.antt =====
-- handlers/reseller/catalog.py: the two ways in which the deletion of an operator ends.
use baste.Prelude.{ℕ, ◌≡◌, ◌⊎◌, inl, inr, true, false, Bool-cases}
use baste.Table.{find}
use baste.Table.Deletes.{spared}
use baste.Schema.{Db}
use baste.Exec.{ok, err, integrity_error}
use baste.Reseller.Catalog.Deletion.{delete_operator_tree}
use baste.Reseller.Catalog.Linked.{Linked}
use baste.Reseller.Catalog.Trees.{under, sold_under, IsShallow}
use baste.Reseller.Catalog.Trees.Deletion.{
  after_tree, tree-refused, tree-deleted, packages-after_tree, categories-after_tree,
}

-- The database behind a deletion of the operator `i`: no package under it was ordered, the operator,
-- its folders and the packages in them are gone, and every other row is what it was.
pub record Deleted (i : ℕ) (s s' : Db) : Type 0 where
  pub never_sold : sold_under i s ≡ false
  pub categories_gone :
      (k : ℕ) → find s'.categories k ≡ spared (λ j _. under i s j) k (find s.categories k)
  pub packages_gone :
      (k : ℕ) → find s'.packages k ≡ spared (λ _ q. under i s q.category_id) k (find s.packages k)

-- Over tables whose references hold, and where a folder in a folder is in no third one, the deletion
-- of an operator ends in one of two ways. Either it raises IntegrityError, which happens if a package in
-- the operator or in one of its folders was ordered, and changes nothing; or no such package was
-- ordered, and it returns with the operator, its folders and their packages gone and every other
-- category and package as it was: so no folder that is left loses its parent and shows up as an
-- operator.
pub delete_operator_tree-Outcome :
    (i : ℕ) (s : Db)
    → Linked s
    → IsShallow s
    → ((delete_operator_tree i s ≡ (err integrity_error, s)) × (sold_under i s ≡ true))
      ⊎ ((s' : Db) × (delete_operator_tree i s ≡ (ok tt, s')) × Deleted i s s')
delete_operator_tree-Outcome i s linked shallow = elim (Bool-cases (sold_under i s)) [
  | inl sold ↦ inl (tree-refused i s linked sold, sold)
  | inr unsold ↦ inr (
    after_tree i s linked,
    tree-deleted i s linked unsold,
    record {
      never_sold = unsold;
      categories_gone = categories-after_tree i s linked shallow unsold;
      packages_gone = packages-after_tree i s linked unsold;
    },
  )
]
