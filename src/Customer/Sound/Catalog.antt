-- ===== src/Customer/Sound/Catalog.antt =====
-- handlers/customer/orders.py: from one state of the catalog to the next, each with its data.
use baste.Prelude.{ℕ, arith, ◌≡◌, true, Option, none, some, List, [], ◌∷◌}
use baste.Schema.{Db, Category, Package}
use baste.Chat.{World, Message, Session, text_is, in_catalog, CatalogState, picked}
use baste.Chat.Keeps.{
  KeepsSession, session_rules, Fine, holds, ready, session-set_update, session-send, if-Fine,
}
use baste.Customer.Services.{reading_rules}
use baste.Keyboards.Customer.{customer_back_to_menu_button_text, customer_back_button_text}
use baste.Customer.{back_to_main_menu}
use baste.Customer.Sound.{menu-keeps}
use baste.Customer.Browse.{
  list_operators, show_operators, list_subcategories, open_operator, handle_operator_pick,
  list_packages, open_subcategory, handle_subcategory_pick, show_package, open_package,
  handle_package_pick, back_to_operators, handle_package_detail_back, ask_for_number,
  handle_buy_button, cancel_phone_number_entry,
}

module _ {P : Db → Type 0} where
  operators-keeps :
      (m : Message) (rows : List (ℕ × Category)) → KeepsSession P (list_operators m rows)
  unfolding list_operators holds ready
  operators-keeps m [] = search session_rules
  operators-keeps m (op ∷ rest) = search (session_rules, session-set_update) depth 20

  pub show-keeps : (w : World) (m : Message) (k : ℕ) → KeepsSession P (show_operators w m k)
  unfolding show_operators
  show-keeps w m k = search (session_rules, reading_rules, operators-keeps) depth 30

  module _ (s : Session) (p : Fine P s) where
    abbrev In : CatalogState → Type 0
    In state = s.state ≡ some (in_catalog state)

    -- What the state says of the data.
    data-held : (state : CatalogState) → In state → holds (in_catalog state) s.data_ ≡ true
    unfolding ready
    data-held state e = grind (arith, p.is_ready)

    list_subcategories-Fine :
        (m : Message) (rows : List (ℕ × Category))
        → In CatalogState.browsing_operators
        → Fine P (list_subcategories m rows s).1
    unfolding list_subcategories holds ready
    list_subcategories-Fine m [] e = (session-send m.user _ none).at s p
    list_subcategories-Fine m (c ∷ rest) e = record {
      db_ok = p.db_ok;
      is_ready = ground (arith, data-held _ e);
    }

    open_operator-Fine :
        (m : Message) (pick : Option ℕ)
        → In CatalogState.browsing_operators
        → Fine P (open_operator m pick s).1
    unfolding open_operator
    open_operator-Fine m none e = (session-send m.user _ none).at s p
    open_operator-Fine m (some i) e = list_subcategories-Fine m _ e

    pub operator_pick-Fine :
        (m : Message) (k : ℕ)
        → In CatalogState.browsing_operators
        → Fine P (handle_operator_pick m k s).1
    unfolding handle_operator_pick
    operator_pick-Fine m k e =
        if-Fine s p (text_is customer_back_to_menu_button_text m) (back_to_main_menu m k)
          (λ t. open_operator m (picked m.text t.data_.operator_map) t) ((menu-keeps m k).at s p)
          (open_operator-Fine m _ e)

    list_packages-Fine :
        (w : World) (m : Message) (rows : List (ℕ × Package))
        → In CatalogState.browsing_subcategories
        → Fine P (list_packages w m rows s).1
    unfolding list_packages holds ready
    list_packages-Fine w m [] e = (session-send m.user _ none).at s p
    list_packages-Fine w m (c ∷ rest) e = record {
      db_ok = p.db_ok;
      is_ready = ground (arith, data-held _ e);
    }

    open_subcategory-Fine :
        (w : World) (m : Message) (pick : Option ℕ)
        → In CatalogState.browsing_subcategories
        → Fine P (open_subcategory w m pick s).1
    unfolding open_subcategory
    open_subcategory-Fine w m none e = (session-send m.user _ none).at s p
    open_subcategory-Fine w m (some i) e = list_packages-Fine w m _ e

    pub subcategory_pick-Fine :
        (w : World) (m : Message) (k : ℕ)
        → In CatalogState.browsing_subcategories
        → Fine P (handle_subcategory_pick w m k s).1
    unfolding handle_subcategory_pick
    subcategory_pick-Fine w m k e =
        if-Fine s p (text_is customer_back_button_text m) (show_operators w m k)
          (λ t. open_subcategory w m (picked m.text t.data_.subcategory_map) t)
          ((show-keeps w m k).at s p) (open_subcategory-Fine w m _ e)

    show_package-Fine :
        (m : Message) (i : ℕ) (row : Option (Package × Category))
        → In CatalogState.browsing_packages
        → Fine P (show_package m i row s).1
    unfolding show_package holds ready
    show_package-Fine m i none e = (session-send m.user _ none).at s p
    show_package-Fine m i (some (q, c)) e = record {
      db_ok = p.db_ok;
      is_ready = ground (arith, data-held _ e);
    }

    open_package-Fine :
        (m : Message) (pick : Option ℕ)
        → In CatalogState.browsing_packages
        → Fine P (open_package m pick s).1
    unfolding open_package
    open_package-Fine m none e = (session-send m.user _ none).at s p
    open_package-Fine m (some i) e = show_package-Fine m i _ e

    pub package_pick-Fine :
        (m : Message) → In CatalogState.browsing_packages → Fine P (handle_package_pick m s).1
    unfolding handle_package_pick back_to_operators holds ready
    package_pick-Fine m e =
        if-Fine s p (text_is customer_back_button_text m)
          (λ t. back_to_operators m s.data_.operator_map t)
          (λ t. open_package m (picked m.text s.data_.package_map) t)
          (record { db_ok = p.db_ok; is_ready = ground (arith, data-held _ e) })
          (open_package-Fine m _ e)

    pub detail_back-Fine :
        (m : Message) → In CatalogState.package_selected → Fine P (handle_package_detail_back m s).1
    unfolding handle_package_detail_back holds ready
    detail_back-Fine m e = record { db_ok = p.db_ok; is_ready = ground (arith, data-held _ e) }

    ask_for_number-Fine :
        (m : Message) (k : ℕ) (i : Option ℕ)
        → In CatalogState.package_selected
        → Fine P (ask_for_number m k i s).1
    unfolding ask_for_number holds ready
    ask_for_number-Fine m k none e = (menu-keeps m k).at s p
    ask_for_number-Fine m k (some i) e = record {
      db_ok = p.db_ok;
      is_ready = ground (arith, data-held _ e);
    }

    pub buy_button-Fine :
        (m : Message) (k : ℕ)
        → In CatalogState.package_selected
        → Fine P (handle_buy_button m k s).1
    unfolding handle_buy_button
    buy_button-Fine m k e = ask_for_number-Fine m k _ e

    pub cancel_number-Fine :
        (m : Message)
        → In CatalogState.entering_phone_number
        → Fine P (cancel_phone_number_entry m s).1
    unfolding cancel_phone_number_entry holds ready
    cancel_number-Fine m e = record { db_ok = p.db_ok; is_ready = ground (arith, data-held _ e) }
