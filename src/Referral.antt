-- ===== src/Referral.antt =====
-- services/referral_service.py: a reseller's referral settings, and who referred whom.
pub mod First
use baste.Prelude.{
  ℕ, zero, ◌*◌, Bool, true, false, ◌&&◌, ◌||◌, not, Option, none, some, ◌==◌, if◌then◌else◌,
  is_some, map_option,
}
use baste.Prelude.Int.{ℤ, pos, ◌*ℤ◌}
use baste.Table.{find, insert, update, select_one}
use baste.Schema.{Db, Referral, ReferralLink}
use baste.Exec.{M, integrity_error, pure, fetch, execute, or_raise, type_error, ◌>>=◌, ◌>>◌}
use baste.Discounts.{round_quotient}

unfoldable pub settings_of : ℕ → ℕ → Referral → Bool
settings_of reseller_id _ r = r.reseller_id == reseller_id

-- The row of the reseller, made with the defaults where there was none; its foreign key wants the
-- reseller.
unfoldable pub get_referral_settings : ℕ → M (Option (ℕ × Referral))
get_referral_settings reseller_id = do
  row ← fetch (λ s. select_one (settings_of reseller_id) s.referrals)
  if is_some row then pure row else do
    or_raise (← fetch (λ s. find s.resellers reseller_id)) integrity_error
    execute (λ s. record s {
      referrals =
          insert s.referrals
            (record { reseller_id = reseller_id; is_enabled = false; profit_percent = pos 0 });
    })
    fetch (λ s. select_one (settings_of reseller_id) s.referrals)

-- UPDATE … WHERE reseller_id = k: the column is a unique key, so at most one row is meant.
unfoldable pub update_settings : ℕ → (Referral → Referral) → Db → Db
update_settings reseller_id f s = elim (select_one (settings_of reseller_id) s.referrals) [
  | none ↦ s
  | some (k, r) ↦ record s { referrals = update s.referrals k f }
]

unfoldable pub set_referral_enabled : ℕ → Bool → M Unit
set_referral_enabled reseller_id enabled = do
  get_referral_settings reseller_id
  execute (update_settings reseller_id (λ r. record r { is_enabled = enabled }))

unfoldable pub set_referral_profit_percent : ℕ → ℤ → M Unit
set_referral_profit_percent reseller_id percent = do
  get_referral_settings reseller_id
  execute (update_settings reseller_id (λ r. record r { profit_percent = percent }))

unfoldable pub is_link : ℕ → ℕ → ℕ → ReferralLink → Bool
is_link reseller_id referred _ l =
    l.reseller_id == reseller_id && l.referred_customer_id == referred

-- INSERT IGNORE: nothing is written where the unique key (reseller, referred) or the foreign key of
-- the reseller is violated.
unfoldable pub insert_link : ℕ → ℕ → ℕ → Db → Db
insert_link reseller_id referrer referred s =
    if is_some (select_one (is_link reseller_id referred) s.referral_links)
      || not (is_some (find s.resellers reseller_id))
    then s
    else record s {
      referral_links = insert s.referral_links (record {
        reseller_id = reseller_id;
        referrer_customer_id = referrer;
        referred_customer_id = referred;
      });
    }

unfoldable pub register_referral : ℕ → ℕ → ℕ → M Unit
register_referral reseller_id referrer referred =
    if referrer == referred then pure tt else execute (insert_link reseller_id referrer referred)

unfoldable pub referrer_of : ℕ → ℕ → Db → Option ℕ
referrer_of reseller_id referred s =
    map_option (λ r. r.1.referrer_customer_id)
      (select_one (is_link reseller_id referred) s.referral_links)

unfoldable pub get_referrer_customer_id : ℕ → ℕ → M (Option ℕ)
get_referrer_customer_id reseller_id referred = fetch (referrer_of reseller_id referred)

-- In whole units, from hundredths and hundredths of a percent.
unfoldable pub calculate_referral_profit : ℤ → ℤ → ℤ
unfolding round_quotient
calculate_referral_profit price percent = round_quotient (price *ℤ percent) 1000000
