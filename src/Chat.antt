-- ===== src/Chat.antt =====
-- One chat with a reseller's bot, under aiogram's dispatcher: the state and the data of the
-- conversation (utils/states.py, FSMContext), and what was sent. A handler is a function of the
-- session, which holds the database too; an exception ends it, and what was done before stays.
pub mod States
pub mod Decimals
pub mod Replies
pub mod CatalogReplies
pub mod Keeps
use baste.Prelude.{
  ℕ, Bool, true, false, Option, none, some, List, [], ◌∷◌, ◌++◌, if◌then◌else◌, ◌==◌,
}
use baste.Prelude.Int.{ℤ}
use baste.Text.{Text, text_eq}
use baste.Money.{DecimalColumn}
use baste.Schema.{Db, TopupMethod}
use baste.Exec.{M, Result, ok, err, Error}
use baste.Orders.{Env}
use baste.ForcedJoin.{MemberStatus}
use baste.Keyboards.{Keyboard}
use baste.Chat.Replies.{Reply, Amount}
pub use baste.Chat.States.*

-- A dict from the text of a button to a key.
abbrev pub Labels : Type 0
Labels = List (Text × ℕ)

-- `d[k] = v`: the key keeps its place.
unfoldable pub dict_set : Text → ℕ → Labels → Labels
dict_set k v [] = (k, v) ∷ []
dict_set k v ((j, w) ∷ rest) = if text_eq j k then (k, v) ∷ rest else (j, w) ∷ dict_set k v rest

-- `{k: v for …}`: a later value of a key replaces an earlier one.
unfoldable pub dict_of : Labels → Labels → Labels
unfolding dict_set
dict_of d [] = d
dict_of d ((k, v) ∷ rest) = dict_of (dict_set k v d) rest

unfoldable pub dict_get : Text → Labels → Option ℕ
dict_get k [] = none
dict_get k ((j, v) ∷ rest) = if text_eq j k then some v else dict_get k rest

-- `data.get(name, {})`
unfoldable pub labels_of : Option Labels → Labels
labels_of none = []
labels_of (some d) = d

-- `.get(message.text)`; a message without a text has `None`, which is no key.
unfoldable pub picked : Option Text → Option Labels → Option ℕ
unfolding dict_get labels_of
picked none d = none
picked (some t) d = dict_get t (labels_of d)

-- The dict of `state.update_data`: the keys that the handlers write.
pub record ChatData : Type 0 where
  pub operator_map : Option Labels
  pub subcategory_map : Option Labels
  pub package_map : Option Labels
  pub selected_package_id : Option ℕ
  pub order_id : Option ℕ
  pub charge_operator_map : Option Labels
  pub charge_subcategory_map : Option Labels
  pub charge_product_map : Option Labels
  pub selected_charge_package_id : Option ℕ
  pub topup_method : Option TopupMethod
  pub topup_id : Option ℕ
  pub amount : Option Amount
  pub dispute_order_id : Option ℕ
  pub charge_package_id : Option ℕ
  pub card_number : Option Text
  pub card_holder_name : Option Text
  pub catalog_type : Option Text
  pub parent_operator_id : Option ℕ
  pub operator_name : Option Text
  pub category_id : Option ℕ
  pub package_name : Option Text
  pub sale_price : Option Amount
  pub operator_id : Option ℕ
  pub subcategory_id : Option ℕ
  pub package_id : Option ℕ

abbrev pub no_data : ChatData
no_data = record {
  operator_map = none;
  subcategory_map = none;
  package_map = none;
  selected_package_id = none;
  order_id = none;
  charge_operator_map = none;
  charge_subcategory_map = none;
  charge_product_map = none;
  selected_charge_package_id = none;
  topup_method = none;
  topup_id = none;
  amount = none;
  dispute_order_id = none;
  charge_package_id = none;
  card_number = none;
  card_holder_name = none;
  catalog_type = none;
  parent_operator_id = none;
  operator_name = none;
  category_id = none;
  package_name = none;
  sale_price = none;
  operator_id = none;
  subcategory_id = none;
  package_id = none;
}

pub record Message : Type 0 where
  pub user : ℕ
  pub text : Option Text
  pub contact : Option Text
  pub photo : Option Text

-- `F.text == t`
unfoldable pub text_is : Text → Message → Bool
text_is t m = elim m.text [ none ↦ false | some u ↦ text_eq u t ]

pub record Sent : Type 0 where
  pub chat_id : ℕ
  pub reply : Reply
  pub markup : Option Keyboard

-- A new price of a package that waits for its confirmation.
pub record PendingEdit : Type 0 where
  pub package_id : ℕ
  pub catalog_type : Text
  pub sale_price : Amount

-- `pending_prices` and `pending_edits` are the dicts of the process that handlers/reseller/catalog.py
-- keeps behind tokens; of the first only the price is read.
pub record Session : Type 0 where
  pub db : Db
  pub pending_prices : List (Text × Amount)
  pub pending_edits : List (Text × PendingEdit)
  pub state : Option ChatState
  pub data_ : ChatData
  pub sent : List Sent

-- What a handler reads besides the database: clocks and `random`, Telegram's answers, the
-- configuration, Python's tables of digits, and Python's formats. `token` is that of `uuid4`;
-- `parse_int` is `int` of a referral code, for the numbers that are not negative; `parse_amount` reads a
-- Decimal, `none` where it raises.
pub record World : Type 0 where
  pub env : Env
  pub round_env : ℕ → Env
  pub datetime_now : ℕ
  pub get_chat_member : Text → Option MemberStatus
  pub column : DecimalColumn
  pub max_pending : ℕ
  pub super_admin_telegram_id : ℕ
  pub is_digit : ℕ → Bool
  pub digit_value : ℕ → Option ℕ
  pub parse_int : Text → Option ℕ
  pub strip_upper : Text → Text
  pub parse_amount : Text → Option Amount
  pub format_price : ℤ → Text
  pub token : Text

abbrev pub H : Type 0 → Type 0
H A = Session → Result A × Session

abbrev pub done : {A : Type 0} → A → H A
done a s = (ok a, s)

abbrev pub fail : {A : Type 0} → Error → H A
fail e s = (err e, s)

abbrev pub next : {A B : Type 0} → (A → H B) → Result A × Session → Result B × Session
next f (ok a, s) = f a s
next f (err e, s) = (err e, s)

infixl 5 ◌>>=◌ ◌>>◌
abbrev pub ◌>>=◌ : {A B : Type 0} → H A → (A → H B) → H B
◌>>=◌ m f s = next f (m s)

abbrev pub ◌>>◌ : {A B : Type 0} → H A → H B → H B
m >> k = m >>= λ _. k

abbrev pub returned : {A : Type 0} → Session → Result A × Db → Result A × Session
returned s (r, db) = (r, record s { db = db })

-- `await service(…)`
abbrev pub call : {A : Type 0} → M A → H A
call m s = returned s (m s.db)

abbrev pub caught_in : {A : Type 0} → Session → Result A × Db → Result (Result A) × Session
caught_in s (r, db) = (ok r, record s { db = db })

-- `try: await service(…)`: the result or the exception, for the `except` clauses.
abbrev pub attempt : {A : Type 0} → M A → H (Result A)
attempt m s = caught_in s (m s.db)

abbrev pub get_data : H ChatData
get_data s = (ok s.data_, s)

abbrev pub get_state : H (Option ChatState)
get_state s = (ok s.state, s)

abbrev pub set_state : ChatState → H (Unit {0})
set_state state s = (ok tt, record s { state = some state })

abbrev pub update_data : (ChatData → ChatData) → H (Unit {0})
update_data f s = (ok tt, record s { data_ = f s.data_ })

-- `state.clear()`
abbrev pub clear : H (Unit {0})
clear s = (ok tt, record s { state = none; data_ = no_data })

abbrev pub send : ℕ → Reply → Option Keyboard → H (Unit {0})
send chat_id reply markup s = (
  ok tt,
  record s { sent = s.sent ++ record { chat_id = chat_id; reply = reply; markup = markup } ∷ [] },
)

-- `message.answer(…)`
abbrev pub answer : Message → Reply → Option Keyboard → H (Unit {0})
answer message reply markup = send message.user reply markup

-- A press of an inline button, with the data that the button carries.
pub record Callback : Type 0 where
  pub user : ℕ
  pub data_ : Text

-- `order["id"]` of an option that must be there.
abbrev pub present : {A : Type 0} → Option A → H A
present none = fail Error.type_error
present (some a) = done a
