-- ===== src/Chat/Keeps.antt =====
-- Invariants of a session under handlers: rules for each construct of a handler's body.
use baste.Prelude.{
  ℕ, ◌≡◌, refl, Bool, true, false, ◌&&◌, Option, none, some, if◌then◌else◌, is_some,
}
use baste.Schema.{Db}
use baste.Exec.{M, Result, ok, err, Error}
use baste.Exec.Keeps.{Keeps}
use baste.Keyboards.{Keyboard}
use baste.Chat.Replies.{Reply}
use baste.Chat.{
  ChatState, in_catalog, in_order, in_charge, in_wallet, CatalogState, OrderState, ChargeState,
  WalletState, in_dispute, DisputeState, in_charge_codes, ChargeCodeState, in_payment_method,
  PaymentMethodState, in_panel, ChatData, Session, H, done, fail, next, ◌>>=◌, returned, call,
  caught_in, attempt, get_data, get_state, set_state, update_data, clear, send, present,
}

-- Whether the dict holds what the handlers of a state read from it. The panel's states, which the
-- button of an older message can enter without their data, ask for nothing.
unfoldable pub holds : ChatState → ChatData → Bool
holds (in_catalog CatalogState.browsing_operators) d = is_some d.operator_map
holds (in_catalog CatalogState.browsing_subcategories) d =
    is_some d.operator_map && is_some d.subcategory_map
holds (in_catalog CatalogState.browsing_packages) d =
    is_some d.operator_map && (is_some d.subcategory_map && is_some d.package_map)
holds (in_catalog CatalogState.package_selected) d =
    is_some d.operator_map
    && (is_some d.subcategory_map && (is_some d.package_map && is_some d.selected_package_id))
holds (in_catalog CatalogState.entering_phone_number) d =
    is_some d.operator_map
    && (is_some d.subcategory_map && (is_some d.package_map && is_some d.selected_package_id))
holds (in_order OrderState.choosing_package) d = true
holds (in_order OrderState.waiting_receipt) d = is_some d.order_id
holds (in_charge ChargeState.browsing_operators) d = is_some d.charge_operator_map
holds (in_charge ChargeState.browsing_subcategories) d =
    is_some d.charge_operator_map && is_some d.charge_subcategory_map
holds (in_charge ChargeState.browsing_products) d =
    is_some d.charge_operator_map
    && (is_some d.charge_subcategory_map && is_some d.charge_product_map)
holds (in_charge ChargeState.product_selected) d =
    is_some d.charge_operator_map
    && (is_some d.charge_subcategory_map
        && (is_some d.charge_product_map && is_some d.selected_charge_package_id))
holds (in_charge ChargeState.entering_quantity) d =
    is_some d.charge_operator_map
    && (is_some d.charge_subcategory_map
        && (is_some d.charge_product_map && is_some d.selected_charge_package_id))
holds (in_wallet WalletState.choosing_method) d = true
holds (in_wallet WalletState.entering_amount) d = is_some d.topup_method
holds (in_wallet WalletState.uploading_receipt) d = is_some d.topup_id && is_some d.amount
holds (in_dispute DisputeState.entering_reason) d = is_some d.dispute_order_id
holds (in_charge_codes ChargeCodeState.entering_codes) d = is_some d.charge_package_id
holds (in_payment_method PaymentMethodState.entering_card_number) d = true
holds (in_payment_method PaymentMethodState.entering_card_holder) d = is_some d.card_number
holds (in_payment_method PaymentMethodState.entering_bank_name) d =
    is_some d.card_number && is_some d.card_holder_name
holds (in_payment_method PaymentMethodState.entering_zarinpal_merchant) d = true
holds (in_panel state) d = true

unfoldable pub ready : Option ChatState → ChatData → Bool
unfolding holds
ready none d = true
ready (some state) d = holds state d

-- The database satisfies `P`, and the conversation has the data of its state.
pub record Fine (P : Db → Type 0) (s : Session) : Type 0 where
  pub db_ok : P s.db
  pub is_ready : ready s.state s.data_ ≡ true

-- However the handler ends, it leaves the session fine.
pub record KeepsSession {A : Type 0} (P : Db → Type 0) (m : H A) : Type 0 where
  pub at : (s : Session) → Fine P s → Fine P (m s).1

module _ {P : Db → Type 0} where
  next-keeps :
      {A B : Type 0} (f : A → H B) (r : Result A × Session)
      → ((a : A) → KeepsSession P (f a))
      → Fine P r.1
      → Fine P (next f r).1
  next-keeps f (ok a, s) h p = (h a).at s p
  next-keeps f (err e, s) h p = p

  pub session-bind :
      {A B : Type 0} (m : H A) (f : A → H B)
      → KeepsSession P m
      → ((a : A) → KeepsSession P (f a))
      → KeepsSession P (m >>= f)
  session-bind m f hm hf = record { at = λ s p. next-keeps f (m s) hf (hm.at s p) }

  returned-Fine :
      {A : Type 0} (s : Session) (r : Result A × Db) → P r.1 → Fine P s → Fine P (returned s r).1
  returned-Fine s (a, db) q p = record { db_ok = q; is_ready = p.is_ready }

  caught-Fine :
      {A : Type 0} (s : Session) (r : Result A × Db) → P r.1 → Fine P s → Fine P (caught_in s r).1
  caught-Fine s (a, db) q p = record { db_ok = q; is_ready = p.is_ready }

  pub session-call : {A : Type 0} (m : M A) → Keeps P m → KeepsSession P (call m)
  session-call m h = record { at = λ s p. returned-Fine s (m s.db) (h.at s.db p.db_ok) p }

  pub session-attempt : {A : Type 0} (m : M A) → Keeps P m → KeepsSession P (attempt m)
  session-attempt m h = record { at = λ s p. caught-Fine s (m s.db) (h.at s.db p.db_ok) p }

  pub session-done : {A : Type 0} (a : A) → KeepsSession P (done a)
  session-done a = record { at = λ s p. p }

  pub session-fail : {A : Type 0} (e : Error) → KeepsSession P (fail {A = A} e)
  session-fail e = record { at = λ s p. p }

  pub session-get_data : KeepsSession P get_data
  session-get_data = record { at = λ s p. p }

  pub session-get_state : KeepsSession P get_state
  session-get_state = record { at = λ s p. p }

  pub session-clear : KeepsSession P clear
  unfolding ready
  session-clear = record { at = λ s p. record { db_ok = p.db_ok; is_ready = refl } }

  pub session-send :
      (chat_id : ℕ) (reply : Reply) (markup : Option Keyboard)
      → KeepsSession P (send chat_id reply markup)
  session-send chat_id reply markup = record {
    at = λ s p. record { db_ok = p.db_ok; is_ready = p.is_ready };
  }

  pub session-present : {A : Type 0} (o : Option A) → KeepsSession P (present o)
  session-present none = record { at = λ s p. p }
  session-present (some a) = record { at = λ s p. p }

  pub session-if :
      {A : Type 0} (b : Bool) (m n : H A)
      → KeepsSession P m
      → KeepsSession P n
      → KeepsSession P (if b then m else n)
  session-if true m n hm hn = hm
  session-if false m n hm hn = hn

  -- A write of the dict and a change of the state, in either order.
  pub session-update_set :
      {A : Type 0} (f : ChatData → ChatData) (state : ChatState) (k : H A)
      → ((d : ChatData) → holds state (f d) ≡ true)
      → KeepsSession P k
      → KeepsSession P (update_data f >>= λ _. (set_state state >>= λ _. k))
  unfolding ready
  session-update_set f state k h hk = record {
    at = λ s p. hk.at _ (record { db_ok = p.db_ok; is_ready = h s.data_ });
  }

  pub session-set_update :
      {A : Type 0} (f : ChatData → ChatData) (state : ChatState) (k : H A)
      → ((d : ChatData) → holds state (f d) ≡ true)
      → KeepsSession P k
      → KeepsSession P (set_state state >>= λ _. (update_data f >>= λ _. k))
  unfolding ready
  session-set_update f state k h hk = record {
    at = λ s p. hk.at _ (record { db_ok = p.db_ok; is_ready = h s.data_ });
  }

  pub session-set_state :
      {A : Type 0} (state : ChatState) (k : H A)
      → ((d : ChatData) → holds state d ≡ true)
      → KeepsSession P k
      → KeepsSession P (set_state state >>= λ _. k)
  unfolding ready
  session-set_state state k h hk = record {
    at = λ s p. hk.at _ (record { db_ok = p.db_ok; is_ready = h s.data_ });
  }

-- The same where the data of the new state depends on the session.
module _ {P : Db → Type 0} (s : Session) (p : Fine P s) where
  pub move-Fine :
      {A : Type 0} (state : ChatState) (k : H A)
      → holds state s.data_ ≡ true
      → KeepsSession P k
      → Fine P ((set_state state >>= λ _. k) s).1
  unfolding ready
  move-Fine state k h hk = hk.at _ (record { db_ok = p.db_ok; is_ready = h })

  pub set_update-Fine :
      {A : Type 0} (f : ChatData → ChatData) (state : ChatState) (k : H A)
      → holds state (f s.data_) ≡ true
      → KeepsSession P k
      → Fine P ((set_state state >>= λ _. (update_data f >>= λ _. k)) s).1
  unfolding ready
  set_update-Fine f state k h hk = hk.at _ (record { db_ok = p.db_ok; is_ready = h })

  pub update_set-Fine :
      {A : Type 0} (f : ChatData → ChatData) (state : ChatState) (k : H A)
      → holds state (f s.data_) ≡ true
      → KeepsSession P k
      → Fine P ((update_data f >>= λ _. (set_state state >>= λ _. k)) s).1
  unfolding ready
  update_set-Fine f state k h hk = hk.at _ (record { db_ok = p.db_ok; is_ready = h })

  pub if-Fine :
      {A : Type 0} (b : Bool) (m n : H A)
      → Fine P (m s).1
      → Fine P (n s).1
      → Fine P ((if b then m else n) s).1
  if-Fine true m n hm hn = hm
  if-Fine false m n hm hn = hn

pub ruleset session_rules = (
  session-if, session-bind, session-call, session-attempt, session-done, session-fail,
  session-get_data, session-get_state, session-clear, session-send, session-present,
)
