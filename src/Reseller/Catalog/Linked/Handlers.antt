-- ===== src/Reseller/Catalog/Linked/Handlers.antt =====
-- Rules for the pieces that the handlers of the catalog share.
use baste.Prelude.{ℕ, zero, suc, Option, none, some, List, [], ◌∷◌}
use baste.Text.{Text}
use baste.Schema.{Db}
use baste.Exec.Keeps.{Keeps, keeps_rules}
use baste.Keyboards.{Keyboard}
use baste.Chat.Decimals.{Amount}
use baste.Chat.CatalogReplies.{CatalogReply}
use baste.Chat.Keeps.{
  KeepsSession, Fine, session_rules, holds, session-update_set, session-set_state, session-done,
  session-fail, session-send, session-if,
}
use baste.SanityCheck.{get_min_sane_price, is_price_suspicious}
use baste.Reseller.OrderReview.{acknowledge}
use baste.Reseller.ChargeStock.{part, int_part, int_or_raise}
use baste.Reseller.Catalog.{tell, entry}

module _ {P : Db → Type 0} where
  pub tell-keeps :
      (user : ℕ) (reply : CatalogReply) (markup : Option Keyboard)
      → KeepsSession P (tell user reply markup)
  unfolding tell
  tell-keeps user reply markup = search session_rules

  pub acknowledge-keeps : (user : ℕ) → KeepsSession P (acknowledge user)
  unfolding acknowledge
  acknowledge-keeps user = search session_rules

  pub part-keeps : (n : ℕ) (parts : List Text) → KeepsSession P (part n parts)
  unfolding part
  part-keeps n [] = session-fail _
  part-keeps zero (t ∷ rest) = session-done t
  part-keeps (suc n) (t ∷ rest) = part-keeps n rest

  pub int_part-keeps : (n : ℕ) (parts : List Text) → KeepsSession P (int_part n parts)
  unfolding int_part int_or_raise
  int_part-keeps n parts = search (session_rules, part-keeps, number)
    where
      number : (o : Option ℕ) → KeepsSession P (int_or_raise o)
      number none = session-fail _
      number (some i) = session-done i

  pub entry-keeps : {A : Type 0} (o : Option A) → KeepsSession P (entry o)
  unfolding entry
  entry-keeps none = session-fail _
  entry-keeps (some a) = session-done a

  pub suspicious-Keeps : (name : Text) (price : Amount) → Keeps P (is_price_suspicious name price)
  unfolding is_price_suspicious get_min_sane_price
  suspicious-Keeps name price = search keeps_rules depth 20

pub ruleset catalog_rules = (
  session_rules, keeps_rules, tell-keeps, acknowledge-keeps, part-keeps, int_part-keeps,
  entry-keeps, suspicious-Keeps,
)
