-- ===== src/Reseller/Catalog/Linked/Writes.antt =====
-- handlers/reseller/catalog.py: the INSERTs and UPDATEs keep the references.
use baste.Prelude.{ℕ, ◌≡◌, refl, true, Option, none, some, arith, All-map, inl, inr, Option-cases}
use baste.Prelude.Int.{ℤ}
use baste.Text.{Text}
use baste.Table.{find, insert, update}
use baste.Table.Keys.{insert-IsKeyed, update-IsKeyed}
use baste.Schema.{Db, Category, Package}
use baste.Exec.{execute, ◌>>=◌}
use baste.Exec.Keeps.{Keeps}
use baste.Reseller.Catalog.Rows.{
  add_category, check_parent, insert_category, add_package, insert_package, update_category,
  update_package, rename_operator, rename_subcategory, rename_package, set_sale_price,
  set_cost_price, toggle_active, catalog_type_of,
}
use baste.Reseller.Catalog.Linked.{
  Linked, has, has_parent, All-insert, All-update, has-insert, has-update,
}

-- A new folder whose parent, if it has one, is there.
added_category-Linked :
    (c : Category) (s : Db)
    → Linked s
    → has_parent s.categories c.parent_category_id ≡ true
    → Linked (add_category c s)
unfolding add_category insert
added_category-Linked c s h parent = record {
  keyed_categories = insert-IsKeyed s.categories c h.keyed_categories;
  keyed_packages = h.keyed_packages;
  orders_linked = h.orders_linked;
  codes_linked = h.codes_linked;
  packages_linked =
      All-map _ _ (λ r e. has-insert s.categories c r.1.category_id e) _ h.packages_linked;
  parents_linked =
      All-insert _ s.categories.rows _
        (All-map _ _ (λ r e. still r.1.parent_category_id e) _ h.parents_linked)
        (still c.parent_category_id parent);
}
  where
    still :
        (o : Option ℕ)
        → has_parent s.categories o ≡ true
        → has_parent (insert s.categories c) o ≡ true
    still none e = refl
    still (some k) e = has-insert s.categories c k e

added_package-Linked :
    (q : Package) (s : Db)
    → Linked s
    → has s.categories q.category_id ≡ true
    → Linked (add_package q s)
unfolding add_package insert
added_package-Linked q s h there = record {
  keyed_categories = h.keyed_categories;
  keyed_packages = insert-IsKeyed s.packages q h.keyed_packages;
  orders_linked = All-map _ _ (λ r e. has-insert s.packages q r.1.package_id e) _ h.orders_linked;
  codes_linked = All-map _ _ (λ r e. has-insert s.packages q r.1.package_id e) _ h.codes_linked;
  packages_linked = All-insert _ s.packages.rows _ h.packages_linked there;
  parents_linked = h.parents_linked;
}

-- A change of a folder that keeps its place.
pub renamed-Linked :
    (k : ℕ) (f : Category → Category)
    → ((c : Category) → (f c).parent_category_id ≡ c.parent_category_id)
    → Keeps Linked (execute (update_category k f))
unfolding update_category update
renamed-Linked k f same = record {
  at = λ s h. record {
    keyed_categories = update-IsKeyed s.categories k f h.keyed_categories;
    keyed_packages = h.keyed_packages;
    orders_linked = h.orders_linked;
    codes_linked = h.codes_linked;
    packages_linked =
        All-map _ _ (λ r e. rw (has-update s.categories k f r.1.category_id) e) _ h.packages_linked;
    parents_linked =
        All-update _ k f s.categories.rows (λ j c e. rw (same c) e)
          (All-map _ _ (λ r e. still s r.1.parent_category_id e) _ h.parents_linked);
  };
}
  where
    still :
        (s : Db) (o : Option ℕ)
        → has_parent s.categories o ≡ true
        → has_parent (update s.categories k f) o ≡ true
    still s none e = refl
    still s (some i) e = rw (has-update s.categories k f i) e

pub changed-Linked :
    (k : ℕ) (f : Package → Package)
    → ((q : Package) → (f q).category_id ≡ q.category_id)
    → Keeps Linked (execute (update_package k f))
unfolding update_package update
changed-Linked k f same = record {
  at = λ s h. record {
    keyed_categories = h.keyed_categories;
    keyed_packages = update-IsKeyed s.packages k f h.keyed_packages;
    orders_linked =
        All-map _ _ (λ r e. rw (has-update s.packages k f r.1.package_id) e) _ h.orders_linked;
    codes_linked =
        All-map _ _ (λ r e. rw (has-update s.packages k f r.1.package_id) e) _ h.codes_linked;
    packages_linked = All-update _ k f s.packages.rows (λ j q e. rw (same q) e) h.packages_linked;
    parents_linked = h.parents_linked;
  };
}

-- The foreign key of the parent is tested before the row is written.
placed :
    (parent : Option ℕ) (c : Category) (s : Db)
    → c.parent_category_id ≡ parent
    → Linked s
    → Linked ((check_parent parent >>= λ _. execute (add_category c)) s).1
unfolding check_parent
placed none c s e h = added_category-Linked c s h (rw e refl)
placed (some k) c s e h = elim (Option-cases (find s.categories k)) [
  | inl missing ↦ rw missing h
  | inr (q, there) ↦ rw there (added_category-Linked c s h (ground (arith, e, there)))
]

pub insert_category-Linked :
    (k : ℕ) (name title : Text) (parent : Option ℕ) (t : Text)
    → Keeps Linked (insert_category k name title parent t)
unfolding insert_category
insert_category-Linked k name title parent t = record {
  at = λ s h. elim (Option-cases (catalog_type_of t)) [
    | inl unknown ↦ rw unknown h
    | inr (kind, known) ↦ elim (Option-cases (find s.resellers k)) [
      | inl nobody ↦ rw (known, nobody) h
      | inr (r, there) ↦ rw (known, there) (placed parent _ s refl h)
    ]
  ];
}

pub insert_package-Linked :
    (k i : ℕ) (name : Text) (sale cost : Option ℤ)
    → Keeps Linked (insert_package k i name sale cost)
unfolding insert_package
insert_package-Linked k i name none cost = record { at = λ s h. h }
insert_package-Linked k i name (some price) none = record { at = λ s h. h }
insert_package-Linked k i name (some price) (some cost) = record {
  at = λ s h. elim (Option-cases (find s.resellers k)) [
    | inl nobody ↦ rw nobody h
    | inr (r, known) ↦ elim (Option-cases (find s.categories i)) [
      | inl nowhere ↦ rw (known, nowhere) h
      | inr (c, there) ↦ rw (known, there) (added_package-Linked _ s h (ground (arith, there)))
    ]
  ];
}

pub rename_operator-Linked : (k : ℕ) (name : Text) → Keeps Linked (rename_operator k name)
unfolding rename_operator
rename_operator-Linked k name = renamed-Linked k _ (λ c. refl)

pub rename_subcategory-Linked : (k : ℕ) (title : Text) → Keeps Linked (rename_subcategory k title)
unfolding rename_subcategory
rename_subcategory-Linked k title = renamed-Linked k _ (λ c. refl)

pub rename_package-Linked : (k : ℕ) (name : Text) → Keeps Linked (rename_package k name)
unfolding rename_package
rename_package-Linked k name = changed-Linked k _ (λ q. refl)

pub set_sale_price-Linked : (k : ℕ) (price : Option ℤ) → Keeps Linked (set_sale_price k price)
unfolding set_sale_price
set_sale_price-Linked k none = record { at = λ s h. h }
set_sale_price-Linked k (some price) = changed-Linked k _ (λ q. refl)

pub set_cost_price-Linked : (k : ℕ) (price : Option ℤ) → Keeps Linked (set_cost_price k price)
unfolding set_cost_price
set_cost_price-Linked k none = record { at = λ s h. h }
set_cost_price-Linked k (some price) = changed-Linked k _ (λ q. refl)

pub toggle_active-Linked : (k : ℕ) → Keeps Linked (toggle_active k)
unfolding toggle_active
toggle_active-Linked k = changed-Linked k _ (λ q. refl)
