-- ===== src/Chat/Decimals.antt =====
-- decimal.Decimal, as the handlers use it on what a user typed.
use baste.Prelude.{Bool, Option}
use baste.Prelude.Int.{ℤ}
use baste.Text.{Text}

-- A Decimal that a user typed: whether it is greater than zero, what a column of two decimals keeps
-- of it, if the database takes it, how it compares to a column, `none` where that raises, and how it is
-- shown.
pub record Amount : Type 0 where
  pub is_positive : Bool
  pub below : ℤ → Option Bool
  pub stored : Option ℤ
  pub shown : Text
