-- ===== src/Blacklist.antt =====
-- services/blacklist_service.py: the shared blacklist.
pub mod Auto
use baste.Prelude.{
  ℕ, ◌≡◌, Bool, true, false, ◌&&◌, not, Option, none, some, leb, ◌==◌, if◌then◌else◌, is_some,
}
use baste.Text.{Text}
use baste.Table.{find, insert, select_one, count_where}
use baste.Schema.{Db, BlacklistEntry, Dispute, Order, Customer, ReviewStatus}
use baste.Exec.{M, pure, fetch, execute, ◌>>=◌, ◌>>◌}

abbrev pub auto_blacklist_threshold : ℕ
auto_blacklist_threshold = 3

unfoldable pub reported_by : ℕ → Option ℕ → Bool
reported_by k none = false
reported_by k (some j) = j == k

unfoldable pub listed_globally : ℕ → Db → Bool
listed_globally user s =
    is_some (select_one (λ _ b. b.telegram_user_id == user && b.is_global) s.blacklist)

unfoldable pub listed_by : ℕ → ℕ → Db → Bool
unfolding reported_by
listed_by user k s = is_some (
    select_one (λ _ b. b.telegram_user_id == user && reported_by k b.reported_by_reseller_id)
      s.blacklist)

unfoldable pub is_blacklisted : ℕ → Option ℕ → M Bool
unfolding listed_globally listed_by
is_blacklisted user none = fetch (listed_globally user)
is_blacklisted user (some k) = do
  global_row ← fetch (listed_globally user)
  if global_row then pure true else fetch (listed_by user k)

unfoldable pub add_to_blacklist : ℕ → Text → Option ℕ → Bool → M Unit
add_to_blacklist user reason reseller_id is_global = execute (λ s. record s {
  blacklist = insert s.blacklist (record {
    telegram_user_id = user;
    reported_by_reseller_id = reseller_id;
    reason = reason;
    is_global = is_global;
  });
})

unfoldable pub is_approved : ReviewStatus → Bool
is_approved ReviewStatus.approved = true
is_approved ReviewStatus.pending = false
is_approved ReviewStatus.rejected = false

-- The two inner joins from a dispute to the Telegram id of the customer of its order.
unfoldable pub owner_is : ℕ → Option Customer → Bool
owner_is user none = false
owner_is user (some c) = c.telegram_user_id == user

unfoldable pub ordered_by : ℕ → Db → Option Order → Bool
unfolding owner_is
ordered_by user s none = false
ordered_by user s (some o) = owner_is user (find s.customers o.customer_id)

unfoldable pub confirmed_fake_receipts : ℕ → Db → ℕ
unfolding is_approved ordered_by
confirmed_fake_receipts user s =
    count_where (λ _ d. is_approved d.review_status && ordered_by user s (find s.orders d.order_id))
      s.disputes

unfoldable pub count_confirmed_fake_receipts : ℕ → M ℕ
count_confirmed_fake_receipts user = fetch (confirmed_fake_receipts user)

-- `reason` renders the count into the text of the new row.
unfoldable pub maybe_auto_blacklist : (ℕ → Text) → ℕ → M Bool
unfolding count_confirmed_fake_receipts is_blacklisted add_to_blacklist
maybe_auto_blacklist reason user = do
  count ← count_confirmed_fake_receipts user
  listed ← is_blacklisted user none
  if (leb auto_blacklist_threshold count && not listed)
      then (do add_to_blacklist user (reason count) none true; pure true)
      else pure false
