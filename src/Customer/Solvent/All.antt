-- ===== src/Customer/Solvent/All.antt =====
-- The receipts, the top-ups and the discounts leave the wallets alone; and all services together.
use baste.Prelude.{ℕ}
use baste.Prelude.Int.{ℤ}
use baste.Text.{Text}
use baste.Money.{DecimalColumn}
use baste.Schema.{Order, Reseller, TopupMethod}
use baste.Exec.{execute}
use baste.Exec.Keeps.{Keeps, keeps_rules}
use baste.Orders.Caught.{Keeps-caught}
use baste.Wallet.{deduct_commission_in_tx, set_balance, add_transaction}
use baste.Orders.{
  check_receipt, accept_receipt, take_receipt, submit_receipt, update_order, count_pending_orders,
}
use baste.Discounts.{increment_usage}
use baste.CustomerWallet.{create_topup_request, attach_topup_receipt, update_topup}
use baste.Chat.{World}
use baste.Customer.Receipt.{set_price}
use baste.Customer.Services.{Services}
use baste.Customer.Solvent.{
  Solvent, other-Solvent, get_or_create-Solvent, referral-Solvent, create_order-Solvent,
  pay-Solvent,
}
use baste.Customer.Solvent.BulkSale.{bulk-Solvent}

deduct-Solvent :
    (column : DecimalColumn) (k : ℕ) (amount : ℤ) (code : Text)
    → Keeps Solvent (deduct_commission_in_tx column k amount code)
unfolding deduct_commission_in_tx set_balance add_transaction
deduct-Solvent column k amount code = search (keeps_rules, other-Solvent) depth 30

take_receipt-Solvent :
    (column : DecimalColumn) (i : ℕ) (receipt : Text) (o : Order) (r : Reseller)
    → Keeps Solvent (take_receipt column i receipt o r)
unfolding take_receipt update_order
take_receipt-Solvent column i receipt o r =
    search (keeps_rules, Keeps-caught, deduct-Solvent, other-Solvent) depth 40

submit-Solvent :
    (column : DecimalColumn) (limit i : ℕ) (receipt : Text)
    → Keeps Solvent (submit_receipt column limit i receipt)
unfolding submit_receipt check_receipt accept_receipt count_pending_orders
submit-Solvent column limit i receipt = search (keeps_rules, take_receipt-Solvent) depth 40

request-Solvent :
    (k c : ℕ) (amount : ℤ) (method : TopupMethod)
    → Keeps Solvent (create_topup_request k c amount method)
unfolding create_topup_request
request-Solvent k c amount method = search (keeps_rules, other-Solvent) depth 40

use_code-Solvent : (i : ℕ) → Keeps Solvent (increment_usage i)
unfolding increment_usage
use_code-Solvent i = search (other-Solvent)

attach-Solvent : (i : ℕ) (receipt : Text) → Keeps Solvent (attach_topup_receipt i receipt)
unfolding attach_topup_receipt update_topup
attach-Solvent i receipt = search (other-Solvent)

reprice-Solvent : (i : ℕ) (price : ℤ) → Keeps Solvent (execute (update_order i (set_price price)))
unfolding update_order
reprice-Solvent i price = search (other-Solvent)

pub services-Solvent : (w : World) → Services w Solvent
services-Solvent w = record {
  get_or_create = get_or_create-Solvent;
  referral = referral-Solvent;
  create = create_order-Solvent;
  pay = pay-Solvent;
  reprice = reprice-Solvent;
  use_code = use_code-Solvent;
  submit = submit-Solvent w.column w.max_pending;
  keeps_charges = bulk-Solvent w.round_env;
  keeps_topup = request-Solvent;
  attach = attach-Solvent;
}
