-- ===== src/Chat/States.antt =====
-- utils/states.py: the states of a conversation.
pub data CatalogState : Type 0 where
  browsing_operators browsing_subcategories browsing_packages : CatalogState
  package_selected entering_phone_number : CatalogState

pub data OrderState : Type 0 where
  choosing_package waiting_receipt : OrderState

pub data ChargeState : Type 0 where
  browsing_operators browsing_subcategories browsing_products : ChargeState
  product_selected entering_quantity : ChargeState

pub data WalletState : Type 0 where
  choosing_method entering_amount uploading_receipt : WalletState

pub data DisputeState : Type 0 where
  entering_reason : DisputeState

pub data ChargeCodeState : Type 0 where
  entering_codes : ChargeCodeState

pub data PaymentMethodState : Type 0 where
  entering_card_number entering_card_holder entering_bank_name : PaymentMethodState
  entering_zarinpal_merchant : PaymentMethodState

pub data CategoryState : Type 0 where
  entering_operator_name entering_subcategory_title : CategoryState

pub data PackageState : Type 0 where
  entering_name entering_price confirming_suspicious_price entering_cost_price : PackageState

pub data ManageState : Type 0 where
  editing_operator_name editing_subcategory_title editing_package_name : ManageState
  editing_package_price confirming_suspicious_edit_price editing_package_cost_price : ManageState

pub data SettingsState : Type 0 where
  entering_channel_id entering_referral_percent entering_discount_code : SettingsState
  entering_discount_percent entering_discount_usage_limit entering_support_contact : SettingsState

pub data TopupState : Type 0 where
  choosing_method entering_amount uploading_receipt entering_zarinpal_amount : TopupState

pub data CryptoTopupState : Type 0 where
  entering_coin entering_tx_hash entering_amount : CryptoTopupState

pub data NewResellerState : Type 0 where
  entering_bot_token entering_telegram_id entering_commission_percent : NewResellerState
  entering_credit_limit entering_order_prefix : NewResellerState

pub data CommissionState : Type 0 where
  entering_new_commission_percent : CommissionState

pub data CryptoState : Type 0 where
  entering_coin entering_address entering_network entering_price : CryptoState

pub data BlacklistState : Type 0 where
  entering_telegram_id entering_reason : BlacklistState

pub data BroadcastState : Type 0 where
  entering_text : BroadcastState

-- The states of a reseller's panel, and of the super admin's.
pub data PanelState : Type 0 where
  in_category : CategoryState → PanelState
  in_package : PackageState → PanelState
  in_manage : ManageState → PanelState
  in_settings : SettingsState → PanelState
  in_topup : TopupState → PanelState
  in_crypto_topup : CryptoTopupState → PanelState
  in_new_reseller : NewResellerState → PanelState
  in_commission : CommissionState → PanelState
  in_crypto : CryptoState → PanelState
  in_blacklist : BlacklistState → PanelState
  in_broadcast : BroadcastState → PanelState

pub data ChatState : Type 0 where
  in_catalog : CatalogState → ChatState
  in_order : OrderState → ChatState
  in_charge : ChargeState → ChatState
  in_wallet : WalletState → ChatState
  in_dispute : DisputeState → ChatState
  in_charge_codes : ChargeCodeState → ChatState
  in_payment_method : PaymentMethodState → ChatState
  in_panel : PanelState → ChatState
