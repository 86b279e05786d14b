-- ===== src/Customer/Sound/Messages.antt =====
-- The routers of the customer's handlers: every message keeps the session fine.
use baste.Prelude.{ℕ, ◌≡◌, refl, Option, none, some, if◌then◌else◌}
use baste.Text.{Text, codes}
use baste.Text.Lines.{is_empty}
use baste.Schema.{Db}
use baste.Keyboards.Customer.{
  customer_catalog_button_text, customer_support_button_text, customer_back_button_text,
  customer_buy_button_text, customer_charge_button_text, customer_buy_charge_button_text,
}
use baste.Chat.{
  World, Message, Session, text_is, H, ChatState, in_catalog, in_order, in_charge, in_wallet,
  CatalogState, OrderState, ChargeState, WalletState,
}
use baste.Chat.Keeps.{KeepsSession, session_rules, session-done, Fine, if-Fine}
use baste.Customer.{customer_cancel, show_support_from_keyboard, starts_with}
use baste.Customer.Browse.{
  show_operators, handle_package_detail_back, handle_buy_button, cancel_phone_number_entry,
}
use baste.Customer.Purchase.{receive_phone_number_text}
use baste.Customer.Receipt.{apply_discount_code}
use baste.Customer.ChargeShop.{
  show_charge_operators, handle_charge_detail_back, handle_buy_charge_button,
  handle_charge_quantity_back,
}
use baste.Customer.ChargeShop.Quantity.{handle_charge_quantity_input}
use baste.Customer.Dispatch.{
  topup_photo, in_wallet_state, wallet_router, in_charge_state, charge_router, typed_number,
  awaited_photo, awaited_receipt, in_orders_state, starts_command, start_with, orders_router,
  customer_message,
}
use baste.Customer.Services.{Services}
use baste.Customer.Sound.{
  cancel-keeps, support-keeps, start-keeps, contact-keeps, number-keeps, discount-keeps,
  receipt-keeps,
}
use baste.Customer.Sound.Catalog.{
  show-keeps, operator_pick-Fine, subcategory_pick-Fine, package_pick-Fine, detail_back-Fine,
  buy_button-Fine, cancel_number-Fine,
}
use baste.Customer.Sound.Shop
use baste.Customer.Sound.Shop.Quantity.{quantity-keeps}
use baste.Customer.Sound.Wallet.{
  wallet-keeps, start_topup-keeps, method-keeps, amount-keeps, topup_receipt-keeps,
}

module _ {w : World} {P : Db → Type 0} (services : Services w P) (m : Message) (k : ℕ) where
  photo-keeps : (photo : Option Text) → KeepsSession P (topup_photo m k photo)
  unfolding topup_photo
  photo-keeps none = session-done tt
  photo-keeps (some photo) = topup_receipt-keeps services m photo k

  wallet_state-keeps : (state : Option ChatState) → KeepsSession P (in_wallet_state w m k state)
  unfolding in_wallet_state
  wallet_state-keeps (some (in_wallet WalletState.choosing_method)) = method-keeps services m k
  wallet_state-keeps (some (in_wallet WalletState.entering_amount)) = amount-keeps services m k
  wallet_state-keeps (some (in_wallet WalletState.uploading_receipt)) = photo-keeps m.photo
  wallet_state-keeps state = session-done tt

  wallet_router-keeps : (state : Option ChatState) → KeepsSession P (wallet_router w m k state)
  unfolding wallet_router
  wallet_router-keeps state =
      search (session_rules, wallet_state-keeps, start_topup-keeps, wallet-keeps services) depth 10

  start_with-keeps : (text : Option Text) → KeepsSession P (start_with w m k text)
  unfolding start_with
  start_with-keeps none = session-done tt
  start_with-keeps (some text) = start-keeps services m text k

  module _ (s : Session) (p : Fine P s) where
    charge_state-Fine :
        (state : Option ChatState) → s.state ≡ state → Fine P (in_charge_state w m k state s).1
    unfolding in_charge_state
    charge_state-Fine (some (in_charge ChargeState.browsing_operators)) e =
        Shop.operator_pick-Fine s p m k e
    charge_state-Fine (some (in_charge ChargeState.browsing_subcategories)) e =
        Shop.subcategory_pick-Fine s p w m e
    charge_state-Fine (some (in_charge ChargeState.browsing_products)) e =
        Shop.product_pick-Fine s p m e
    charge_state-Fine (some (in_charge ChargeState.product_selected)) e =
        if-Fine s p (text_is customer_back_button_text m) (handle_charge_detail_back m)
          (if text_is customer_buy_charge_button_text m
            then handle_buy_charge_button m k
            else wallet_router w m k (some (in_charge ChargeState.product_selected)))
          (Shop.detail_back-Fine s p m e)
          (if-Fine s p (text_is customer_buy_charge_button_text m) (handle_buy_charge_button m k)
            (wallet_router w m k (some (in_charge ChargeState.product_selected)))
            (Shop.buy_button-Fine s p m k e)
            ((wallet_router-keeps (some (in_charge ChargeState.product_selected))).at s p))
    charge_state-Fine (some (in_charge ChargeState.entering_quantity)) e =
        if-Fine s p (text_is customer_back_button_text m) (handle_charge_quantity_back m k)
          (handle_charge_quantity_input w m k) (Shop.quantity_back-Fine s p m k e)
          ((quantity-keeps services m k).at s p)
    charge_state-Fine state e = (wallet_router-keeps state).at s p

    charge_router-Fine :
        (state : Option ChatState) → s.state ≡ state → Fine P (charge_router w m k state s).1
    unfolding charge_router
    charge_router-Fine state e =
        if-Fine s p (text_is customer_charge_button_text m) (show_charge_operators w m k)
          (in_charge_state w m k state) ((Shop.show-keeps w m k).at s p) (charge_state-Fine state e)

    typed_number-Fine :
        (contact text : Option Text) (otherwise : H Unit)
        → Fine P (otherwise s).1
        → Fine P (typed_number w m k contact text otherwise s).1
    unfolding typed_number
    typed_number-Fine (some phone) text otherwise h = (contact-keeps services m phone k).at s p
    typed_number-Fine none none otherwise h = h
    typed_number-Fine none (some text) otherwise h =
        if-Fine s p (is_empty text) otherwise (receive_phone_number_text w m text k) h
          ((number-keeps services m text k).at s p)

    awaited_photo-Fine :
        (photo : Option Text) (otherwise : H Unit)
        → Fine P (otherwise s).1
        → Fine P (awaited_photo w m k photo otherwise s).1
    unfolding awaited_photo
    awaited_photo-Fine none otherwise h = h
    awaited_photo-Fine (some photo) otherwise h = (receipt-keeps services m photo k).at s p

    awaited_receipt-Fine :
        (text : Option Text) (otherwise : H Unit)
        → Fine P (otherwise s).1
        → Fine P (awaited_receipt w m k text otherwise s).1
    unfolding awaited_receipt
    awaited_receipt-Fine none otherwise h = awaited_photo-Fine m.photo otherwise h
    awaited_receipt-Fine (some text) otherwise h =
        if-Fine s p (starts_with (codes "/discount ") text) (apply_discount_code w m text k)
          (awaited_photo w m k m.photo otherwise) ((discount-keeps services m text k).at s p)
          (awaited_photo-Fine m.photo otherwise h)

    abbrev selected : ChatState
    selected = in_catalog CatalogState.package_selected

    abbrev entering : ChatState
    entering = in_catalog CatalogState.entering_phone_number

    abbrev waiting : ChatState
    waiting = in_order OrderState.waiting_receipt

    orders_state-Fine :
        (state : Option ChatState) → s.state ≡ state → Fine P (in_orders_state w m k state s).1
    unfolding in_orders_state
    orders_state-Fine (some (in_catalog CatalogState.browsing_operators)) e =
        operator_pick-Fine s p m k e
    orders_state-Fine (some (in_catalog CatalogState.browsing_subcategories)) e =
        subcategory_pick-Fine s p w m k e
    orders_state-Fine (some (in_catalog CatalogState.browsing_packages)) e =
        package_pick-Fine s p m e
    orders_state-Fine (some (in_catalog CatalogState.package_selected)) e =
        if-Fine s p (text_is customer_back_button_text m) (handle_package_detail_back m)
          (if text_is customer_buy_button_text m
            then handle_buy_button m k
            else charge_router w m k (some selected))
          (detail_back-Fine s p m e)
          (if-Fine s p (text_is customer_buy_button_text m) (handle_buy_button m k)
            (charge_router w m k (some selected)) (buy_button-Fine s p m k e)
            (charge_router-Fine (some selected) e))
    orders_state-Fine (some (in_catalog CatalogState.entering_phone_number)) e =
        if-Fine s p (text_is customer_back_button_text m) (cancel_phone_number_entry m)
          (typed_number w m k m.contact m.text (charge_router w m k (some entering)))
          (cancel_number-Fine s p m e)
          (typed_number-Fine m.contact m.text _ (charge_router-Fine (some entering) e))
    orders_state-Fine (some (in_order OrderState.waiting_receipt)) e =
        awaited_receipt-Fine m.text _ (charge_router-Fine (some waiting) e)
    orders_state-Fine state e = charge_router-Fine state e

    orders_router-Fine :
        (state : Option ChatState) → s.state ≡ state → Fine P (orders_router w m k state s).1
    unfolding orders_router
    orders_router-Fine state e =
        if-Fine s p (text_is (codes "/cancel") m) (customer_cancel m k)
          (if starts_command m.text
            then start_with w m k m.text
            else if text_is customer_support_button_text m
            then show_support_from_keyboard m k
            else if text_is customer_catalog_button_text m
            then show_operators w m k
            else in_orders_state w m k state)
          ((cancel-keeps m k).at s p)
          (if-Fine s p (starts_command m.text) (start_with w m k m.text)
            (if text_is customer_support_button_text m
              then show_support_from_keyboard m k
              else if text_is customer_catalog_button_text m
              then show_operators w m k
              else in_orders_state w m k state)
            ((start_with-keeps m.text).at s p)
            (if-Fine s p (text_is customer_support_button_text m) (show_support_from_keyboard m k)
              (if text_is customer_catalog_button_text m
                then show_operators w m k
                else in_orders_state w m k state)
              ((support-keeps m k).at s p)
              (if-Fine s p (text_is customer_catalog_button_text m) (show_operators w m k)
                (in_orders_state w m k state) ((show-keeps w m k).at s p)
                (orders_state-Fine state e))))

    pub customer_message-Fine : Fine P (customer_message w k m s).1
    unfolding customer_message
    customer_message-Fine = orders_router-Fine s.state refl
