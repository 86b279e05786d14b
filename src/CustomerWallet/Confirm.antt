-- ===== src/CustomerWallet/Confirm.antt =====
-- services/customer_wallet_service.py, confirm_topup.
use baste.Prelude.{
  ℕ, ◌≡◌, ◌⊎◌, refl, ap, ◌∙◌, Bool, true, false, Option, none, some, arith, inl, inr, Bool-cases,
  Option-cases, ◌==◌, if◌then◌else◌, map_option,
}
use baste.Prelude.Int.{ℤ, ◌+ℤ◌, ◌*ℤ◌}
use baste.Text.{Text}
use baste.Money.{DecimalColumn}
use baste.Table.{find, insert}
use baste.Table.Laws.{find-update}
use baste.Schema.{Db, WalletTopup, WalletTopupStatus, Reseller, Customer}
use baste.Exec.{Result, ok, err, topup_insufficient_credit}
use baste.Orders.{caught}
use baste.Wallet.Limit.{
  deducted, deduct-decided, customers-deducted, topups-deducted, Covers, charged, ledger_row,
  resellers-deducted, ledger-deducted,
}
use baste.CustomerWallet.{
  check_topup, pay_topup, apply_topup, confirm_topup, get_topup, is_pending, credit, settle_topup,
  update_topup,
}

-- A customer with `amount` more in the wallet.
abbrev pub pay_in : ℤ → Customer → Customer
pay_in amount c = record c { wallet_balance = c.wallet_balance +ℤ amount }

module _ (column : DecimalColumn) (reference : ℕ → Text) (now i : ℕ) where
  abbrev pub commission_of : WalletTopup → Reseller → ℤ
  commission_of t r = t.amount *ℤ r.commission_percent

  -- The database after the commission, paid or not.
  abbrev pub after_commission : WalletTopup → Reseller → Reseller → Bool → Db → Db
  after_commission t r q short s =
      if short
      then credit t.customer_id t.amount s
      else deducted column t.reseller_id (commission_of t r) (reference i)
          (credit t.customer_id t.amount s) q

  abbrev pub settled : Bool → WalletTopup → WalletTopup
  settled short = settle_topup now (
      if short
      then WalletTopupStatus.confirmed_insufficient_credit
      else WalletTopupStatus.confirmed)

  -- Whether the credit of the reseller `q` does not cover the commission.
  abbrev pub Decides : WalletTopup → Reseller → Reseller → Db → Bool → Type 0
  Decides t r q s true = ¬ Covers column t.reseller_id (commission_of t r) (reference i) s q
  Decides t r q s false = Covers column t.reseller_id (commission_of t r) (reference i) s q

  -- The transaction, from any database that has the reseller: it commits.
  pay-decided :
      (t : WalletTopup) (r q : Reseller) (s : Db)
      → find s.resellers t.reseller_id ≡ some q
      → (short : Bool) × Decides t r q s short
        × (pay_topup column reference now i t r s
            ≡ (ok short, update_topup i (settled short) (after_commission t r q short s)))
  pay-decided t r q s e =
      elim (deduct-decided column t.reseller_id (commission_of t r) (reference i)
        (credit t.customer_id t.amount s) q (unfold credit in e)) [
          | inl (low, short) ↦ (true, low, unfold pay_topup caught in rw short)
          | inr (high, paid) ↦ (false, high, unfold pay_topup caught in rw paid)
        ]

  pub pay-cases :
      (t : WalletTopup) (r q : Reseller) (s : Db)
      → find s.resellers t.reseller_id ≡ some q
      → (short : Bool) × (pay_topup column reference now i t r s
          ≡ (ok short, update_topup i (settled short) (after_commission t r q short s)))
  pay-cases t r q s e = let (short, _, p) = pay-decided t r q s e in (short, p)

  pub customers-after :
      (t : WalletTopup) (r q : Reseller) (short : Bool) (s : Db) (j : ℕ)
      → find (update_topup i (settled short) (after_commission t r q short s)).customers j ≡ (
          if t.customer_id == j
          then map_option (pay_in t.amount) (find s.customers j)
          else find s.customers j)
  unfolding update_topup credit
  customers-after t r q true s j = find-update s.customers t.customer_id j (pay_in t.amount)
  customers-after t r q false s j =
      ap (λ c. find c j)
        (customers-deducted column t.reseller_id (commission_of t r) (reference i)
          (credit t.customer_id t.amount s) q)
      ∙ find-update s.customers t.customer_id j (pay_in t.amount)

  pub topup-after :
      (t : WalletTopup) (r q : Reseller) (short : Bool) (s : Db) (u : WalletTopup)
      → find s.wallet_topups i ≡ some u
      → find (update_topup i (settled short) (after_commission t r q short s)).wallet_topups i
        ≡ some (settled short u)
  unfolding update_topup credit
  topup-after t r q true s u e = ground (arith, find-update s.wallet_topups i i (settled true))
  topup-after t r q false s u e = ground (
    arith,
    topups-deducted column t.reseller_id (commission_of t r) (reference i)
        (credit t.customer_id t.amount s) q,
    find-update
        (deducted column t.reseller_id (commission_of t r) (reference i)
          (credit t.customer_id t.amount s) q).wallet_topups
        i i (settled false),
  )

  -- The reseller's wallet and ledger: the credit covered the commission and was charged with it, or it
  -- did not, and both are what they were.
  abbrev pub Commission : WalletTopup → Db → Bool → Db → Type 0
  Commission t s false s' =
      (r : Reseller) × (find s.resellers t.reseller_id ≡ some r)
      × Covers column t.reseller_id (commission_of t r) (reference i) s r
      × ((j : ℕ)
          → find s'.resellers j ≡ (
              if t.reseller_id == j
              then some (charged column t.reseller_id (commission_of t r) (reference i) s r)
              else find s.resellers j))
      × (s'.wallet_transactions
          ≡ insert s.wallet_transactions
              (ledger_row column t.reseller_id (commission_of t r) (reference i) s))
  Commission t s true s' =
      (r : Reseller) × (find s.resellers t.reseller_id ≡ some r)
      × (¬ Covers column t.reseller_id (commission_of t r) (reference i) s r)
      × (s'.resellers ≡ s.resellers)
      × (s'.wallet_transactions ≡ s.wallet_transactions)

  -- What a confirmation that got as far as its transaction has done.
  abbrev pub Confirmed : Db → Bool → Db → Type 0
  Confirmed s short s' =
      (t : WalletTopup) × (find s.wallet_topups i ≡ some t)
      × (is_pending t.status ≡ true)
      × (find s'.wallet_topups i ≡ some (settled short t))
      × ((j : ℕ)
          → find s'.customers j ≡ (
              if t.customer_id == j
              then map_option (pay_in t.amount) (find s.customers j)
              else find s.customers j))
      × Commission t s short s'

  after-Commission :
      (t : WalletTopup) (r : Reseller) (short : Bool) (s : Db)
      → find s.resellers t.reseller_id ≡ some r
      → Decides t r r s short
      → Commission t s short (update_topup i (settled short) (after_commission t r r short s))
  unfolding update_topup credit
  after-Commission t r false s f covers = (
    r,
    f,
    covers,
    λ j.
        resellers-deducted column t.reseller_id (commission_of t r) (reference i)
          (credit t.customer_id t.amount s) r j f,
    ledger-deducted column t.reseller_id (commission_of t r) (reference i)
        (credit t.customer_id t.amount s) r,
  )
  after-Commission t r true s f low = (r, f, low, refl, refl)

  abbrev pub Outcome : Db → Result (Option WalletTopup) × Db → Type 0
  Outcome s (ok got, s') = Confirmed s false s' × (got ≡ find s'.wallet_topups i)
  Outcome s (err (topup_insufficient_credit _ _), s') = Confirmed s true s'
  Outcome s (err _, s') =
      (s' ≡ s)
      × ((find s.wallet_topups i ≡ none)
          ⊎ ((t : WalletTopup) × (find s.wallet_topups i ≡ some t)
              × ((is_pending t.status ≡ false) ⊎ (find s.resellers t.reseller_id ≡ none))))

  confirm_run :
      (s s' : Db) (t : WalletTopup) (r : Reseller) (short : Bool)
      → find s.wallet_topups i ≡ some t
      → is_pending t.status ≡ true
      → find s.resellers t.reseller_id ≡ some r
      → pay_topup column reference now i t r s ≡ (ok short, s')
      → confirm_topup column reference now i s ≡ (
        if short
            then err (topup_insufficient_credit i t.reseller_id)
            else ok (find s'.wallet_topups i),
        s',
      )
  unfolding confirm_topup check_topup apply_topup get_topup
  confirm_run s s' t r true e waiting f p = rw (e, waiting, f, p)
  confirm_run s s' t r false e waiting f p = rw (e, waiting, f, p)

  confirm_paid :
      (s : Db) (t : WalletTopup) (r : Reseller)
      → find s.wallet_topups i ≡ some t
      → is_pending t.status ≡ true
      → find s.resellers t.reseller_id ≡ some r
      → Outcome s (confirm_topup column reference now i s)
  confirm_paid s t r e waiting f = go (pay-decided t r r s f)
    where
      confirmed :
          (short : Bool)
          → Decides t r r s short
          → Confirmed s short (update_topup i (settled short) (after_commission t r r short s))
      confirmed short decided = (
        t,
        e,
        waiting,
        topup-after t r r short s t e,
        customers-after t r r short s,
        after-Commission t r short s f decided,
      )

      go :
          ((short : Bool) × Decides t r r s short
            × (pay_topup column reference now i t r s
                ≡ (ok short, update_topup i (settled short) (after_commission t r r short s))))
          → Outcome s (confirm_topup column reference now i s)
      go (true, decided, p) = rw (confirm_run s _ t r true e waiting f p) (confirmed true decided)
      go (false, decided, p) =
          rw (confirm_run s _ t r false e waiting f p) (confirmed false decided, refl)

  -- Every confirmation ends in one of three ways. It returns, or it raises
  -- `WalletTopupInsufficientCreditError`: in both the request was pending, is marked by the outcome of
  -- the commission, and its amount was added to its customer's wallet and to no other. In the first
  -- the credit of the reseller covers the commission, which is taken off that reseller's balance and
  -- no other and stands as one new row in the ledger; in the second the credit does not cover it, and
  -- balances and ledger are untouched. Or it raises another exception, nothing has changed, and the
  -- request or its reseller was missing or the request was not pending.
  pub confirm_topup-Outcome : (s : Db) → Outcome s (confirm_topup column reference now i s)
  confirm_topup-Outcome s = elim (Option-cases (find s.wallet_topups i)) [
    | inl missing ↦ unfold confirm_topup check_topup in rw missing (refl, inl missing)
    | inr (t, e) ↦ elim (Bool-cases (is_pending t.status)) [
      | inr done ↦ unfold confirm_topup check_topup in rw (e, done) (refl, inr (t, e, inl done))
      | inl waiting ↦ elim (Option-cases (find s.resellers t.reseller_id)) [
        | inl gone ↦
            unfold confirm_topup check_topup in rw (e, waiting, gone) (refl, inr (t, e, inr gone))
        | inr (r, f) ↦ confirm_paid s t r e waiting f
      ]
    ]
  ]
