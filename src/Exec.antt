-- ===== src/Exec.antt =====
-- database/db.py: one service call as a function of the database, with Python's exceptions as
-- values. `fetch_one`, `fetch_all` and `execute` commit at once, so what they wrote stays when a
-- later statement raises; `transaction` puts the database back.
pub mod Keeps
use baste.Prelude.{ℕ, Bool, true, false, Option, none, some, ◌≡◌, refl, if◌then◌else◌}
use baste.Text.{Text}
use baste.Schema.{Db}

-- The exceptions that the services raise, or that the language or the database raises in them.
pub data Error : Type 0 where
  not_found already_processed bad_quantity : Error
  insufficient_credit : Error
  order_insufficient_credit : ℕ → ℕ → Text → Error
  topup_insufficient_credit : ℕ → ℕ → Error
  pending_order_limit : ℕ → Error
  customer_blacklisted : Error
  insufficient_balance : Error
  out_of_stock : Option ℕ → Error
  discount_not_found discount_expired discount_exhausted : Error
  runtime_error type_error integrity_error data_error value_error index_error : Error
  invalid_operation key_error : Error

pub data Result (A : Type 0) : Type 0 where
  ok : A → Result A
  err : Error → Result A

abbrev pub M : Type 0 → Type 0
M A = Db → Result A × Db

unfoldable pub is_ok : {A : Type 0} → Result A → Bool
is_ok (ok a) = true
is_ok (err e) = false

abbrev pub pure : {A : Type 0} → A → M A
pure a s = (ok a, s)

abbrev pub raise : {A : Type 0} → Error → M A
raise e s = (err e, s)

abbrev pub continue : {A B : Type 0} → (A → M B) → Result A × Db → Result B × Db
continue f (ok a, s) = f a s
continue f (err e, s) = (err e, s)

infixl 5 ◌>>=◌ ◌>>◌
abbrev pub ◌>>=◌ : {A B : Type 0} → M A → (A → M B) → M B
◌>>=◌ m f s = continue f (m s)

abbrev pub ◌>>◌ : {A B : Type 0} → M A → M B → M B
m >> k = m >>= λ _. k

-- A SELECT.
abbrev pub fetch : {A : Type 0} → (Db → A) → M A
fetch q s = (ok (q s), s)

-- An INSERT, UPDATE or DELETE.
abbrev pub execute : (Db → Db) → M (Unit {0})
execute f s = (ok tt, f s)

-- `if row is None: raise …`, and `row[…]` of a row that may be missing
abbrev pub or_raise : {A : Type 0} → Option A → Error → M A
or_raise none e = raise e
or_raise (some a) e = pure a

abbrev pub raise_if : Bool → Error → M (Unit {0})
raise_if b e s = (if b then err e else ok tt, s)

abbrev pub settle : {A : Type 0} → Db → Result A × Db → Result A × Db
settle s (ok a, s') = (ok a, s')
settle s (err e, s') = (err e, s)

-- `async with transaction()`: commit at the end, roll back on an exception and raise it again.
abbrev pub transaction : {A : Type 0} → M A → M A
transaction m s = settle s (m s)
