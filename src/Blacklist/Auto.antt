-- ===== src/Blacklist/Auto.antt =====
-- services/blacklist_service.py: the automatic entry after repeated fake receipts.
use baste.Prelude.{ℕ, ◌≡◌, true, ◌&&◌, ◌||◌, not, none, arith, ◌==◌, leb}
use baste.Text.{Text}
use baste.Table.Laws.{some-insert}
use baste.Schema.{Db}
use baste.Exec.{ok}
use baste.Blacklist.{
  maybe_auto_blacklist, is_blacklisted, listed_globally, add_to_blacklist,
  count_confirmed_fake_receipts, confirmed_fake_receipts,
}

listed-add :
    (user other : ℕ) (reason : Text) (s : Db)
    → listed_globally other (add_to_blacklist user reason none true s).1
      ≡ listed_globally other s || user == other
unfolding listed_globally add_to_blacklist
listed-add user other reason s = ground (
  arith,
  some-insert (λ _ b. b.telegram_user_id == other && b.is_global) s.blacklist
      (record {
        telegram_user_id = user;
        reported_by_reseller_id = none;
        reason = reason;
        is_global = true;
      }),
)

-- After the check a user is on the shared blacklist exactly if the user was there before or has at
-- least three approved disputes; nobody else is put there. The result says whether the check added
-- the entry.
pub maybe_auto_blacklist_lists :
    (reason : ℕ → Text) (user other : ℕ) (s : Db)
    → let due = leb 3 (confirmed_fake_receipts user s) in
      ((maybe_auto_blacklist reason user s).0 ≡ ok (due && not (listed_globally user s)))
      × (listed_globally other (maybe_auto_blacklist reason user s).1
          ≡ listed_globally other s || (user == other && due))
unfolding maybe_auto_blacklist count_confirmed_fake_receipts is_blacklisted add_to_blacklist
maybe_auto_blacklist_lists reason user other s =
    ground (arith, listed-add user other (reason (confirmed_fake_receipts user s)) s)
