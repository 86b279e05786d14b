-- ===== src/Reseller/Catalog/Linked/Removals.antt =====
-- handlers/reseller/catalog.py: the deletions keep the references, whether they succeed or not.
use baste.Prelude.{ℕ, Option, none, some, List, [], ◌∷◌}
use baste.Text.{Text}
use baste.Exec.{Result, ok, err, integrity_error}
use baste.Exec.Keeps.{Keeps, keeps_rules}
use baste.Chat.{H}
use baste.Chat.Keeps.{KeepsSession, holds, session-fail}
use baste.Reseller.Catalog.Linked.{Linked}
use baste.Reseller.Catalog.Linked.Handlers.{catalog_rules}
use baste.Reseller.Catalog.Linked.Statements.{
  delete_operator_tree-Linked, delete_subcategory_tree-Linked, delete_package-Linked,
}
use baste.Reseller.Catalog.Linked.Pages.{
  render_manage_operators-Linked, render_operator_detail-Linked, render_subcategory_detail-Linked,
  render_package_detail-Linked,
}
use baste.Reseller.Catalog.Deletion.{
  count_codes, count_in_folders, count_operator_deletion_impact, count_subcategory_deletion_impact,
}
use baste.Reseller.Catalog.Removal.{
  confirm_delete_operator, after_deletion, delete_operator_confirmed, delete_operator_cancelled,
  confirm_delete_subcategory, back_to_parent, delete_subcategory_confirmed,
  delete_subcategory_cancelled, confirm_delete_package, back_to_folder, delete_package_confirmed,
  delete_package_cancelled,
}

codes-Linked : (l : List ℕ) → Keeps Linked (count_codes l)
unfolding count_codes
codes-Linked [] = search keeps_rules
codes-Linked (i ∷ rest) = search keeps_rules

folders-Linked : (l : List ℕ) → Keeps Linked (count_in_folders l)
unfolding count_in_folders
folders-Linked [] = search keeps_rules
folders-Linked (i ∷ rest) = search (keeps_rules, codes-Linked)

operator_impact-Linked : (i : ℕ) → Keeps Linked (count_operator_deletion_impact i)
unfolding count_operator_deletion_impact
operator_impact-Linked i = search (keeps_rules, folders-Linked)

subcategory_impact-Linked : (i : ℕ) → Keeps Linked (count_subcategory_deletion_impact i)
unfolding count_subcategory_deletion_impact
subcategory_impact-Linked i = search (keeps_rules, codes-Linked)

after_deletion-Linked :
    (r : Result Unit) (deleted refused : H Unit)
    → KeepsSession Linked deleted
    → KeepsSession Linked refused
    → KeepsSession Linked (after_deletion r deleted refused)
unfolding after_deletion
after_deletion-Linked (ok _) deleted refused d r = d
after_deletion-Linked (err integrity_error) deleted refused d r = r
after_deletion-Linked (err e) deleted refused d r = session-fail e

pub back_to_parent-Linked :
    (user : ℕ) (t : Text) (o : Option (Option ℕ)) → KeepsSession Linked (back_to_parent user t o)
unfolding back_to_parent holds
back_to_parent-Linked user t none = search catalog_rules
back_to_parent-Linked user t (some none) = search catalog_rules
back_to_parent-Linked user t (some (some i)) = search (catalog_rules, render_operator_detail-Linked)

pub back_to_folder-Linked :
    (user : ℕ) (t : Text) (o : Option ℕ) → KeepsSession Linked (back_to_folder user t o)
unfolding back_to_folder holds
back_to_folder-Linked user t none = search catalog_rules
back_to_folder-Linked user t (some i) = render_subcategory_detail-Linked user t i

pub confirm_delete_operator-Linked :
    (user : ℕ) (parts : List Text) → KeepsSession Linked (confirm_delete_operator user parts)
unfolding confirm_delete_operator
confirm_delete_operator-Linked user parts = search (catalog_rules, operator_impact-Linked) depth 40

pub delete_operator_confirmed-Linked :
    (user : ℕ) (k : ℕ) (parts : List Text)
    → KeepsSession Linked (delete_operator_confirmed user k parts)
unfolding delete_operator_confirmed
delete_operator_confirmed-Linked user k parts =
    search
      (
        catalog_rules, delete_operator_tree-Linked, after_deletion-Linked,
        render_manage_operators-Linked, render_operator_detail-Linked,
      )
      depth 40

pub delete_operator_cancelled-Linked :
    (user : ℕ) (parts : List Text) → KeepsSession Linked (delete_operator_cancelled user parts)
unfolding delete_operator_cancelled
delete_operator_cancelled-Linked user parts =
    search (catalog_rules, render_operator_detail-Linked) depth 40

pub confirm_delete_subcategory-Linked :
    (user : ℕ) (parts : List Text) → KeepsSession Linked (confirm_delete_subcategory user parts)
unfolding confirm_delete_subcategory
confirm_delete_subcategory-Linked user parts =
    search (catalog_rules, subcategory_impact-Linked) depth 40

pub delete_subcategory_confirmed-Linked :
    (user : ℕ) (parts : List Text) → KeepsSession Linked (delete_subcategory_confirmed user parts)
unfolding delete_subcategory_confirmed
delete_subcategory_confirmed-Linked user parts =
    search
      (
        catalog_rules, delete_subcategory_tree-Linked, after_deletion-Linked, back_to_parent-Linked,
        render_subcategory_detail-Linked,
      )
      depth 40

pub delete_subcategory_cancelled-Linked :
    (user : ℕ) (parts : List Text) → KeepsSession Linked (delete_subcategory_cancelled user parts)
unfolding delete_subcategory_cancelled
delete_subcategory_cancelled-Linked user parts =
    search (catalog_rules, render_subcategory_detail-Linked) depth 40

pub confirm_delete_package-Linked :
    (user : ℕ) (parts : List Text) → KeepsSession Linked (confirm_delete_package user parts)
unfolding confirm_delete_package
confirm_delete_package-Linked user parts = search (catalog_rules) depth 40

pub delete_package_confirmed-Linked :
    (user : ℕ) (parts : List Text) → KeepsSession Linked (delete_package_confirmed user parts)
unfolding delete_package_confirmed
delete_package_confirmed-Linked user parts =
    search
      (
        catalog_rules, delete_package-Linked, after_deletion-Linked, back_to_folder-Linked,
        render_package_detail-Linked,
      )
      depth 40

pub delete_package_cancelled-Linked :
    (user : ℕ) (parts : List Text) → KeepsSession Linked (delete_package_cancelled user parts)
unfolding delete_package_cancelled
delete_package_cancelled-Linked user parts =
    search (catalog_rules, render_package_detail-Linked) depth 40
