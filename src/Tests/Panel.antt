-- ===== src/Tests/Panel.antt =====
-- The panel of a reseller and the bots that run: the theorems at the small database.
use baste.Prelude.{ℕ, ◌≡◌, ◌⊎◌, refl, true, [], ◌∷◌, ◌==◌, is_in, arith}
use baste.Table.{find, select}
use baste.Schema.{Db}
use baste.Exec.{ok, err, integrity_error, runtime_error}
use baste.Reseller.Catalog.Deletion.{delete_operator_tree}
use baste.Reseller.Catalog.Linked.{Linked}
use baste.Reseller.Catalog.Trees.{sold_under, IsShallow}
use baste.Reseller.Catalog.Trees.Outcome.{Deleted, delete_operator_tree-Outcome}
use baste.BotManager.{sync_once, is_active_status}
use baste.BotManager.Sync.{is_active, sync_once-Synced, sync_once_blocked}
use baste.Tests.Data.{shop}

shop-Linked : Linked shop
unfolding find
shop-Linked = record {
  keyed_categories = omega arith;
  keyed_packages = omega arith;
  orders_linked = (refl, (refl, tt));
  codes_linked = (refl, (refl, tt));
  packages_linked = (refl, tt);
  parents_linked = (refl, (refl, tt));
}

shop-IsShallow : IsShallow shop
unfolding find
shop-IsShallow k q c h e d g = ground arith

delete_operator_tree-Outcome_example :
    ((delete_operator_tree 1 shop ≡ (err integrity_error, shop)) × (sold_under 1 shop ≡ true))
    ⊎ ((s' : Db) × (delete_operator_tree 1 shop ≡ (ok tt, s')) × Deleted 1 shop s')
delete_operator_tree-Outcome_example =
    delete_operator_tree-Outcome 1 shop shop-Linked shop-IsShallow

-- The bot of reseller 2 does not run, and 9 is no reseller any more.
shop_syncs : (sync_once (λ i. true) (λ i. true) shop (1 ∷ 9 ∷ [])).0 ≡ ok tt
unfolding sync_once is_in select
shop_syncs = refl

sync_once-Synced_example :
    is_in (sync_once (λ i. true) (λ i. true) shop (1 ∷ 9 ∷ [])).1 9 ≡ is_active shop 9
sync_once-Synced_example =
    sync_once-Synced (λ i. true) (λ i. true) shop (1 ∷ 9 ∷ []) (omega arith) shop_syncs 9

sync_once_blocked_example :
    ((sync_once (λ i. i == 1) (λ i. true) shop (1 ∷ 9 ∷ [])).0 ≡ err runtime_error)
    × ((k : ℕ)
        → is_in (1 ∷ 9 ∷ []) k ≡ true
        → is_in (sync_once (λ i. i == 1) (λ i. true) shop (1 ∷ 9 ∷ [])).1 k ≡ true)
unfolding is_active is_in find is_active_status
sync_once_blocked_example =
    sync_once_blocked (λ i. i == 1) (λ i. true) shop (1 ∷ 9 ∷ []) 2 (omega arith) refl refl refl
