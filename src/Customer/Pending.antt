-- ===== src/Customer/Pending.antt =====
-- No customer has more orders under review than the configured maximum, under the services that the
-- customer's handlers call.
use baste.Prelude.{ℕ, suc, ◌≡◌, refl, none, some, List, [], ◌∷◌, arith, Option}
use baste.Prelude.Int.{ℤ}
use baste.Text.{Text}
use baste.Schema.{Db, Reseller, ChargeCode, TopupMethod}
use baste.Exec.{execute, pure}
use baste.Exec.Keeps.{Keeps, keeps_rules, Keeps-bind, Keeps-pure}
use baste.Orders.{Env, get_or_create_customer, insert_order, is_awaiting_review}
use baste.Orders.Pending.{
  Capped, Capped-same, Capped-priced, insert_order-Capped, charge_wallet-Capped,
  customer_blocked-Capped, create_order-Capped, create_order_paid_by_wallet-Capped,
}
use baste.Orders.Flow.{submit_receipt-Capped}
use baste.Referral.{register_referral, insert_link}
use baste.Discounts.{increment_usage}
use baste.OrderCode.{generate_charge_code}
use baste.Charge.{
  sell_all, sell_each, update_code, deliver_bulk, purchase_charge_bulk, delivery_order, Delivery,
}
use baste.CustomerWallet.{create_topup_request, attach_topup_receipt, update_topup}
use baste.Chat.{World}
use baste.Customer.Receipt.{set_price}
use baste.Customer.Services.{Services}

module _ (limit : ℕ) where
  -- A write of other tables.
  other-Capped :
      (f : Db → Db) → ((s : Db) → (f s).orders ≡ s.orders) → Keeps (Capped limit) (execute f)
  other-Capped f same = record { at = λ s h. Capped-same limit s (f s) (same s) h }

  get_or_create-Capped : (k u : ℕ) → Keeps (Capped limit) (get_or_create_customer k u)
  unfolding get_or_create_customer
  get_or_create-Capped k u = search (keeps_rules, other-Capped) depth 20

  insert_link-Capped : (k i j : ℕ) → Keeps (Capped limit) (execute (insert_link k i j))
  insert_link-Capped k i j =
      other-Capped (insert_link k i j) (λ s. unfold insert_link in ground arith)

  referral-Capped : (k i j : ℕ) → Keeps (Capped limit) (register_referral k i j)
  unfolding register_referral
  referral-Capped k i j = search (keeps_rules, insert_link-Capped) depth 10

  request-Capped :
      (k c : ℕ) (amount : ℤ) (method : TopupMethod)
      → Keeps (Capped limit) (create_topup_request k c amount method)
  unfolding create_topup_request
  request-Capped k c amount method = search (keeps_rules, other-Capped) depth 40

  use_code-Capped : (i : ℕ) → Keeps (Capped limit) (increment_usage i)
  unfolding increment_usage
  use_code-Capped i = search (other-Capped)

  attach-Capped : (i : ℕ) (receipt : Text) → Keeps (Capped limit) (attach_topup_receipt i receipt)
  unfolding attach_topup_receipt update_topup
  attach-Capped i receipt = search (other-Capped)

  sold-Capped :
      (i : ℕ) (f : ChargeCode → ChargeCode) → Keeps (Capped limit) (execute (update_code i f))
  unfolding update_code
  sold-Capped i f = search (other-Capped)

  module _ (env : ℕ → Env) (prefix : Text) (k p c : ℕ) (price : ℤ) where
    abbrev delivered : ℕ → ChargeCode → ℕ → Delivery
    delivered n row order_id = record {
      order_id = order_id;
      order_code = generate_charge_code prefix (some n) (env n).moment (env n).draw;
      code = row.code;
    }

    delivered_order-Capped :
        (e : Env) (code value : Text)
        → Keeps (Capped limit) (insert_order (delivery_order e code k p c price value))
    delivered_order-Capped e code value =
        insert_order-Capped limit _ (unfold delivery_order is_awaiting_review in refl)

    round-Capped :
        (n i : ℕ) (row : ChargeCode) (rest : List (ℕ × ChargeCode))
        → Keeps (Capped limit) (sell_each env prefix k p c price (suc n) rest)
        → Keeps (Capped limit) (sell_each env prefix k p c price n ((i, row) ∷ rest))
    unfolding sell_each
    round-Capped n i row rest more =
        Keeps-bind (insert_order _) _ (delivered_order-Capped (env n) _ row.code) (λ order_id.
          Keeps-bind (execute (update_code i _)) _ (sold-Capped i _) (λ _.
            Keeps-bind (sell_each env prefix k p c price (suc n) rest)
              (λ ds. pure (delivered n row order_id ∷ ds)) more (λ ds. Keeps-pure _)))

    sell_each-Capped :
        (n : ℕ) (rows : List (ℕ × ChargeCode))
        → Keeps (Capped limit) (sell_each env prefix k p c price n rows)
    unfolding sell_each
    sell_each-Capped n [] = search keeps_rules
    sell_each-Capped n ((i, row) ∷ rest) = round-Capped n i row rest (sell_each-Capped (suc n) rest)

  sell_all-Capped :
      (env : ℕ → Env) (r : Option Reseller) (k p c : ℕ) (price : ℤ) (rows : List (ℕ × ChargeCode))
      → Keeps (Capped limit) (sell_all env r k p c price rows)
  unfolding sell_all
  sell_all-Capped env none k p c price [] = search keeps_rules
  sell_all-Capped env none k p c price (_ ∷ _) = search keeps_rules
  sell_all-Capped env (some r) k p c price rows =
      sell_each-Capped env r.order_prefix k p c price 1 rows

  deliver_bulk-Capped :
      (env : ℕ → Env) (r : Option Reseller) (k p c : ℕ) (price : ℤ) (n : ℕ)
      → Keeps (Capped limit) (deliver_bulk env r k p c price n)
  unfolding deliver_bulk
  deliver_bulk-Capped env r k p c price n =
      search (keeps_rules, charge_wallet-Capped, sell_all-Capped) depth 40

  bulk-Capped :
      (env : ℕ → Env) (k p c n : ℕ) → Keeps (Capped limit) (purchase_charge_bulk env k p c n)
  unfolding purchase_charge_bulk
  bulk-Capped env k p c n =
      search (keeps_rules, customer_blocked-Capped, deliver_bulk-Capped) depth 40

pub services-Capped : (w : World) → Services w (Capped w.max_pending)
services-Capped w =
    let limit = w.max_pending in
    record {
      get_or_create = get_or_create-Capped limit;
      referral = referral-Capped limit;
      create = create_order-Capped limit;
      pay = create_order_paid_by_wallet-Capped limit;
      reprice = λ i price.
          Capped-priced limit i (set_price price) (λ o. unfold set_price in refl)
            (λ o. unfold set_price in refl);
      use_code = use_code-Capped limit;
      submit =
          λ i receipt. record { at = λ s h. submit_receipt-Capped w.column limit i receipt s h };
      keeps_charges = bulk-Capped limit w.round_env;
      keeps_topup = request-Capped limit;
      attach = attach-Capped limit;
    }
