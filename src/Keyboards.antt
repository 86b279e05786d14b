-- ===== src/Keyboards.antt =====
-- utils/keyboards.py: rows of buttons. A reply button sends its text as a message; an inline button
-- sends its callback data.
pub mod Customer
pub mod Review
pub mod Admin
pub mod Reseller
pub mod Catalog
pub mod Stock
use baste.Prelude.{Bool, true, false, Option, none, some, List}
use baste.Text.{Text}

pub data Style : Type 0 where
  primary success danger : Style

pub record KeyboardButton : Type 0 where
  pub text : Text
  pub style : Option Style
  pub request_contact : Bool

pub record InlineButton : Type 0 where
  pub text : Text
  pub callback_data : Text
  pub style : Style

pub data Keyboard : Type 0 where
  reply_keyboard : List (List KeyboardButton) → Keyboard
  inline_keyboard : List (List InlineButton) → Keyboard
  remove_keyboard : Keyboard

abbrev pub key : Text → Style → KeyboardButton
key text style = record { text = text; style = some style; request_contact = false }

abbrev pub plain_key : Text → KeyboardButton
plain_key text = record { text = text; style = none; request_contact = false }

abbrev pub contact_key : Text → Style → KeyboardButton
contact_key text style = record { text = text; style = some style; request_contact = true }

abbrev pub button : Text → Text → Style → InlineButton
button text callback_data style = record {
  text = text;
  callback_data = callback_data;
  style = style;
}
