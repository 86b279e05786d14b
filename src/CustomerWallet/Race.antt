-- ===== src/CustomerWallet/Race.antt =====
-- services/customer_wallet_service.py, confirm_topup: its test of the status stands outside its
-- transaction, and the transaction does not test again.
use baste.Prelude.{ℕ, ◌≡◌, ap, ◌∙◌, Bool, true, false, some, arith, map_option}
use baste.Text.{Text}
use baste.Money.{DecimalColumn}
use baste.Table.{find}
use baste.Schema.{Db, WalletTopup, Reseller}
use baste.Exec.{ok}
use baste.Wallet.Limit.{reseller-deducted}
use baste.CustomerWallet.{
  check_topup, apply_topup, get_topup, pay_topup, is_pending, credit, update_topup,
}
use baste.CustomerWallet.Confirm.{
  commission_of, settled, after_commission, pay-cases, pay_in, customers-after,
}

module _ (column : DecimalColumn) (reference : ℕ → Text) (now i : ℕ) where
  apply_state :
      (t : WalletTopup) (r : Reseller) (short : Bool) (s s' : Db)
      → pay_topup column reference now i t r s ≡ (ok short, s')
      → (apply_topup column reference now i (t, r) s).1 ≡ s'
  unfolding apply_topup get_topup
  apply_state t r true s s' p = rw p
  apply_state t r false s s' p = rw p

  -- The second half of a confirmation pays, from any database that has the reseller: whatever the
  -- status of the request is by then. The reseller is there afterwards too.
  apply_pays :
      (t : WalletTopup) (r q : Reseller) (s : Db)
      → find s.resellers t.reseller_id ≡ some q
      → let s' = (apply_topup column reference now i (t, r) s).1 in
        (find s'.customers t.customer_id
          ≡ map_option (pay_in t.amount) (find s.customers t.customer_id))
        × ((q' : Reseller) × (find s'.resellers t.reseller_id ≡ some q'))
  apply_pays t r q s e = go (pay-cases column reference now i t r q s e)
    where
      own :
          (short : Bool)
          → find
              (update_topup i
                (settled column reference now i short)
                (after_commission column reference now i t r q short s)).customers
              t.customer_id
            ≡ map_option (pay_in t.amount) (find s.customers t.customer_id)
      own short =
          rw (customers-after column reference now i t r q short s t.customer_id) (ground arith)

      still :
          (short : Bool)
          → (q' : Reseller) × (find
                (update_topup i
                  (settled column reference now i short)
                  (after_commission column reference now i t r q short s)).resellers
                t.reseller_id
              ≡ some q')
      still true = (q, unfold update_topup credit in e)
      still false =
          let paid =
            reseller-deducted column t.reseller_id (commission_of column reference now i t r)
              (reference i) (credit t.customer_id t.amount s) q (unfold credit in e) in
          (paid.0, unfold update_topup in paid.1)

      go :
          ((short : Bool) × (pay_topup column reference now i t r s ≡ (
            ok short,
            update_topup i
                (settled column reference now i short)
                (after_commission column reference now i t r q short s),
          )))
          → let s' = (apply_topup column reference now i (t, r) s).1 in
            (find s'.customers t.customer_id
              ≡ map_option (pay_in t.amount) (find s.customers t.customer_id))
            × ((q' : Reseller) × (find s'.resellers t.reseller_id ≡ some q'))
      go (short, p) = rw (apply_state t r short s _ p) (own short, still short)

  -- Two confirmations of one pending request that both read before either pays: each read passes, and
  -- the amount of the request is added to the wallet twice.
  pub confirm_topup_race :
      (t : WalletTopup) (r : Reseller) (s : Db)
      → find s.wallet_topups i ≡ some t
      → is_pending t.status ≡ true
      → find s.resellers t.reseller_id ≡ some r
      → let first = (apply_topup column reference now i (t, r) s).1 in
        let second = (apply_topup column reference now i (t, r) first).1 in
        (check_topup i s ≡ (ok (t, r), s))
        × (find second.customers t.customer_id
            ≡ map_option
                (pay_in t.amount)
                (map_option (pay_in t.amount) (find s.customers t.customer_id)))
  confirm_topup_race t r s e waiting f =
      let (paid, (q, g)) = apply_pays t r r s f in
      let again = (apply_pays t r q (apply_topup column reference now i (t, r) s).1 g).0 in
      (unfold check_topup in rw (e, waiting, f), again ∙ ap (map_option (pay_in t.amount)) paid)
