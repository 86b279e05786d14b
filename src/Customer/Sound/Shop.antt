-- ===== src/Customer/Sound/Shop.antt =====
-- handlers/customer/charge.py: from one state of the shop to the next, each with its data.
pub mod Quantity
use baste.Prelude.{
  ℕ, arith, ◌≡◌, refl, Bool, true, false, ◌&&◌, Option, none, some, List, [], ◌∷◌, is_some,
}
use baste.Schema.{Db, Category, Package}
use baste.Chat.{World, Message, Session, ChatData, text_is, in_charge, ChargeState, picked}
use baste.Chat.Keeps.{
  KeepsSession, session_rules, Fine, holds, ready, session-set_update, session-send, if-Fine,
}
use baste.Customer.Services.{reading_rules}
use baste.Keyboards.Customer.{customer_back_to_menu_button_text, customer_back_button_text}
use baste.Customer.{back_to_main_menu}
use baste.Customer.Sound.{menu-keeps}
use baste.Customer.ChargeShop.{
  list_charge_operators, show_charge_operators, list_charge_subcategories, open_charge_operator,
  handle_charge_operator_pick, list_charges, open_charge_subcategory, back_to_charge_operators,
  handle_charge_subcategory_pick, show_charge, open_charge, back_to_charge_subcategories,
  handle_charge_product_pick, handle_charge_detail_back, ask_for_quantity, handle_buy_charge_button,
  show_product_detail, after_detail, leave_quantity, handle_charge_quantity_back,
}

module _ {P : Db → Type 0} where
  operators-keeps :
      (m : Message) (rows : List (ℕ × Category)) → KeepsSession P (list_charge_operators m rows)
  unfolding list_charge_operators holds
  operators-keeps m [] = search session_rules
  operators-keeps m (op ∷ rest) = search (session_rules, session-set_update) depth 20

  pub show-keeps : (w : World) (m : Message) (k : ℕ) → KeepsSession P (show_charge_operators w m k)
  unfolding show_charge_operators
  show-keeps w m k = search (session_rules, reading_rules, operators-keeps) depth 30

  module _ (s : Session) (p : Fine P s) where
    abbrev In : ChargeState → Type 0
    In state = s.state ≡ some (in_charge state)

    -- What the state says of the data.
    data-held : (state : ChargeState) → In state → holds (in_charge state) s.data_ ≡ true
    unfolding ready
    data-held state e = grind (arith, p.is_ready)

    list_subcategories-Fine :
        (m : Message) (rows : List (ℕ × Category))
        → In ChargeState.browsing_operators
        → Fine P (list_charge_subcategories m rows s).1
    unfolding list_charge_subcategories holds ready
    list_subcategories-Fine m [] e = (session-send m.user _ none).at s p
    list_subcategories-Fine m (c ∷ rest) e = record {
      db_ok = p.db_ok;
      is_ready = ground (arith, data-held _ e);
    }

    open_operator-Fine :
        (m : Message) (pick : Option ℕ)
        → In ChargeState.browsing_operators
        → Fine P (open_charge_operator m pick s).1
    unfolding open_charge_operator
    open_operator-Fine m none e = (session-send m.user _ none).at s p
    open_operator-Fine m (some i) e = list_subcategories-Fine m _ e

    pub operator_pick-Fine :
        (m : Message) (k : ℕ)
        → In ChargeState.browsing_operators
        → Fine P (handle_charge_operator_pick m k s).1
    unfolding handle_charge_operator_pick
    operator_pick-Fine m k e =
        if-Fine s p (text_is customer_back_to_menu_button_text m) (back_to_main_menu m k)
          (λ t. open_charge_operator m (picked m.text t.data_.charge_operator_map) t)
          ((menu-keeps m k).at s p) (open_operator-Fine m _ e)

    list_charges-Fine :
        (w : World) (m : Message) (rows : List (ℕ × Package))
        → In ChargeState.browsing_subcategories
        → Fine P (list_charges w m rows s).1
    unfolding list_charges holds ready
    list_charges-Fine w m [] e = (session-send m.user _ none).at s p
    list_charges-Fine w m (c ∷ rest) e = record {
      db_ok = p.db_ok;
      is_ready = ground (arith, data-held _ e);
    }

    open_subcategory-Fine :
        (w : World) (m : Message) (pick : Option ℕ)
        → In ChargeState.browsing_subcategories
        → Fine P (open_charge_subcategory w m pick s).1
    unfolding open_charge_subcategory
    open_subcategory-Fine w m none e = (session-send m.user _ none).at s p
    open_subcategory-Fine w m (some i) e = list_charges-Fine w m _ e

    pub subcategory_pick-Fine :
        (w : World) (m : Message)
        → In ChargeState.browsing_subcategories
        → Fine P (handle_charge_subcategory_pick w m s).1
    unfolding handle_charge_subcategory_pick back_to_charge_operators holds ready
    subcategory_pick-Fine w m e =
        if-Fine s p (text_is customer_back_button_text m)
          (λ t. back_to_charge_operators m s.data_.charge_operator_map t)
          (λ t. open_charge_subcategory w m (picked m.text s.data_.charge_subcategory_map) t)
          (record { db_ok = p.db_ok; is_ready = ground (arith, data-held _ e) })
          (open_subcategory-Fine w m _ e)

    show_charge-Fine :
        (m : Message) (i : ℕ) (row : Option (Package × Category))
        → In ChargeState.browsing_products
        → Fine P (show_charge m i row s).1
    unfolding show_charge holds ready
    show_charge-Fine m i none e = (session-send m.user _ none).at s p
    show_charge-Fine m i (some (q, c)) e = record {
      db_ok = p.db_ok;
      is_ready = ground (arith, data-held _ e);
    }

    open_charge-Fine :
        (m : Message) (pick : Option ℕ)
        → In ChargeState.browsing_products
        → Fine P (open_charge m pick s).1
    unfolding open_charge
    open_charge-Fine m none e = (session-send m.user _ none).at s p
    open_charge-Fine m (some i) e = show_charge-Fine m i _ e

    pub product_pick-Fine :
        (m : Message) → In ChargeState.browsing_products → Fine P (handle_charge_product_pick m s).1
    unfolding handle_charge_product_pick back_to_charge_subcategories holds ready
    product_pick-Fine m e =
        if-Fine s p (text_is customer_back_button_text m)
          (λ t. back_to_charge_subcategories m s.data_.charge_subcategory_map t)
          (λ t. open_charge m (picked m.text s.data_.charge_product_map) t)
          (record { db_ok = p.db_ok; is_ready = ground (arith, data-held _ e) })
          (open_charge-Fine m _ e)

    pub detail_back-Fine :
        (m : Message) → In ChargeState.product_selected → Fine P (handle_charge_detail_back m s).1
    unfolding handle_charge_detail_back holds ready
    detail_back-Fine m e = record { db_ok = p.db_ok; is_ready = ground (arith, data-held _ e) }

    ask_for_quantity-Fine :
        (m : Message) (k : ℕ) (i : Option ℕ)
        → In ChargeState.product_selected
        → Fine P (ask_for_quantity m k i s).1
    unfolding ask_for_quantity holds ready
    ask_for_quantity-Fine m k none e = (menu-keeps m k).at s p
    ask_for_quantity-Fine m k (some i) e = record {
      db_ok = p.db_ok;
      is_ready = ground (arith, data-held _ e);
    }

    pub buy_button-Fine :
        (m : Message) (k : ℕ)
        → In ChargeState.product_selected
        → Fine P (handle_buy_charge_button m k s).1
    unfolding handle_buy_charge_button
    buy_button-Fine m k e = ask_for_quantity-Fine m k _ e

    leave-Fine :
        (m : Message) (k : ℕ) (row : Option (Package × Category))
        → In ChargeState.entering_quantity
        → Fine P (after_detail m k row s).1
    unfolding after_detail show_product_detail holds ready
    leave-Fine m k none e = (menu-keeps m k).at s p
    leave-Fine m k (some (q, c)) e = record {
      db_ok = p.db_ok;
      is_ready = ground (arith, data-held _ e);
    }

    leave_quantity-Fine :
        (m : Message) (k : ℕ) (i : Option ℕ)
        → In ChargeState.entering_quantity
        → Fine P (leave_quantity m k i s).1
    unfolding leave_quantity
    leave_quantity-Fine m k none e = (menu-keeps m k).at s p
    leave_quantity-Fine m k (some i) e = leave-Fine m k _ e

    pub quantity_back-Fine :
        (m : Message) (k : ℕ)
        → In ChargeState.entering_quantity
        → Fine P (handle_charge_quantity_back m k s).1
    unfolding handle_charge_quantity_back
    quantity_back-Fine m k e = leave_quantity-Fine m k _ e
