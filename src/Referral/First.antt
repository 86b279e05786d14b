-- ===== src/Referral/First.antt =====
-- services/referral_service.py, register_referral: the first referrer stays.
use baste.Prelude.{ℕ, ◌≡◌, ◌&&◌, not, none, some, arith, ◌==◌, if◌then◌else◌, is_some}
use baste.Table.{find}
use baste.Table.Laws.{select_one-insert, or_else}
use baste.Schema.{Db}
use baste.Referral.{register_referral, insert_link, is_link, referrer_of}

-- A registration gives `referred` the referrer, if the two differ, the reseller exists and no
-- referrer was there before; a referrer that was there stays, and no other customer's changes, whoever
-- the reseller.
pub register_referral_first :
    (k a b k' c : ℕ) (s : Db)
    → referrer_of k' c (register_referral k a b s).1
      ≡ or_else (referrer_of k' c s) (
          if k == k' && (b == c && (not (a == b) && is_some (find s.resellers k)))
          then some a
          else none)
unfolding register_referral insert_link referrer_of is_link
register_referral_first k a b k' c s = ground (
  arith,
  select_one-insert (is_link k' c) s.referral_links
      (record { reseller_id = k; referrer_customer_id = a; referred_customer_id = b }),
)
