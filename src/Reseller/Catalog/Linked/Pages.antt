-- ===== src/Reseller/Catalog/Linked/Pages.antt =====
-- handlers/reseller/catalog.py: the pages of the management keep the references.
use baste.Prelude.{ℕ, Option, none, some, List, [], ◌∷◌}
use baste.Text.{Text}
use baste.Schema.{Category, Package}
use baste.Chat.Keeps.{KeepsSession, holds}
use baste.Reseller.Catalog.Linked.{Linked}
use baste.Reseller.Catalog.Linked.Handlers.{catalog_rules}
use baste.Reseller.Catalog.Manage.{
  manage_page, render_manage_operators, operator_page, render_operator_detail, subcategory_page,
  render_subcategory_detail, package_page, render_package_detail, manage_operators_cb,
  manage_operator_detail_cb, manage_subcategory_detail_cb, manage_package_detail_cb,
}

pub manage_page-Linked :
    (user : ℕ) (t : Text) (l : List (ℕ × Category)) → KeepsSession Linked (manage_page user t l)
unfolding manage_page holds
manage_page-Linked user t [] = search catalog_rules
manage_page-Linked user t (c ∷ rest) = search catalog_rules

pub render_manage_operators-Linked :
    (user : ℕ) (t : Text) (k : ℕ) → KeepsSession Linked (render_manage_operators user t k)
unfolding render_manage_operators
render_manage_operators-Linked user t k = search (catalog_rules, manage_page-Linked) depth 40

pub operator_page-Linked :
    (user : ℕ) (t : Text) (i : ℕ) (o : Option Category)
    → KeepsSession Linked (operator_page user t i o)
unfolding operator_page holds
operator_page-Linked user t i none = search catalog_rules
operator_page-Linked user t i (some c) = search catalog_rules depth 20

pub render_operator_detail-Linked :
    (user : ℕ) (t : Text) (i : ℕ) → KeepsSession Linked (render_operator_detail user t i)
unfolding render_operator_detail
render_operator_detail-Linked user t i = search (catalog_rules, operator_page-Linked) depth 40

pub subcategory_page-Linked :
    (user : ℕ) (t : Text) (i : ℕ) (o : Option Category)
    → KeepsSession Linked (subcategory_page user t i o)
unfolding subcategory_page holds
subcategory_page-Linked user t i none = search catalog_rules
subcategory_page-Linked user t i (some c) = search catalog_rules depth 20

pub render_subcategory_detail-Linked :
    (user : ℕ) (t : Text) (i : ℕ) → KeepsSession Linked (render_subcategory_detail user t i)
unfolding render_subcategory_detail
render_subcategory_detail-Linked user t i = search (catalog_rules, subcategory_page-Linked) depth 40

pub package_page-Linked :
    (user : ℕ) (t : Text) (i : ℕ) (o : Option Package)
    → KeepsSession Linked (package_page user t i o)
unfolding package_page holds
package_page-Linked user t i none = search catalog_rules
package_page-Linked user t i (some c) = search catalog_rules depth 20

pub render_package_detail-Linked :
    (user : ℕ) (t : Text) (i : ℕ) → KeepsSession Linked (render_package_detail user t i)
unfolding render_package_detail
render_package_detail-Linked user t i = search (catalog_rules, package_page-Linked) depth 40

pub manage_operators_cb-Linked :
    (user : ℕ) (k : ℕ) (parts : List Text) → KeepsSession Linked (manage_operators_cb user k parts)
unfolding manage_operators_cb
manage_operators_cb-Linked user k parts =
    search (catalog_rules, render_manage_operators-Linked) depth 40

pub manage_operator_detail_cb-Linked :
    (user : ℕ) (parts : List Text) → KeepsSession Linked (manage_operator_detail_cb user parts)
unfolding manage_operator_detail_cb
manage_operator_detail_cb-Linked user parts =
    search (catalog_rules, render_operator_detail-Linked) depth 40

pub manage_subcategory_detail_cb-Linked :
    (user : ℕ) (parts : List Text) → KeepsSession Linked (manage_subcategory_detail_cb user parts)
unfolding manage_subcategory_detail_cb
manage_subcategory_detail_cb-Linked user parts =
    search (catalog_rules, render_subcategory_detail-Linked) depth 40

pub manage_package_detail_cb-Linked :
    (user : ℕ) (parts : List Text) → KeepsSession Linked (manage_package_detail_cb user parts)
unfolding manage_package_detail_cb
manage_package_detail_cb-Linked user parts =
    search (catalog_rules, render_package_detail-Linked) depth 40
