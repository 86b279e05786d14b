-- ===== src/Exec/Keeps.antt =====
-- Invariants of the database under service calls: rules for each construct of a service's body.
use baste.Prelude.{Bool, true, false, Option, none, some, if◌then◌else◌}
use baste.Schema.{Db}
use baste.Exec.{
  M, Result, ok, err, Error, pure, raise, fetch, or_raise, raise_if, continue, settle, transaction,
  ◌>>=◌,
}

-- However the call ends, it leaves `P` true.
pub record Keeps {A : Type 0} (P : Db → Type 0) (m : M A) : Type 0 where
  pub at : (s : Db) → P s → P (m s).1

pub settle-keeps :
    {A : Type 0} (P : Db → Type 0) (s : Db) (r : Result A × Db) → P s → P r.1 → P (settle s r).1
settle-keeps P s (ok a, s') p q = q
settle-keeps P s (err e, s') p q = p

module _ {P : Db → Type 0} where
  continue-keeps :
      {A B : Type 0} (f : A → M B) (r : Result A × Db)
      → ((a : A) → Keeps P (f a))
      → P r.1
      → P (continue f r).1
  continue-keeps f (ok a, s) h p = (h a).at s p
  continue-keeps f (err e, s) h p = p

  pub Keeps-bind :
      {A B : Type 0} (m : M A) (f : A → M B)
      → Keeps P m
      → ((a : A) → Keeps P (f a))
      → Keeps P (m >>= f)
  Keeps-bind m f hm hf = record { at = λ s p. continue-keeps f (m s) hf (hm.at s p) }

  pub Keeps-transaction : {A : Type 0} (m : M A) → Keeps P m → Keeps P (transaction m)
  Keeps-transaction m h = record { at = λ s p. settle-keeps P s (m s) p (h.at s p) }

  pub Keeps-fetch : {A : Type 0} (q : Db → A) → Keeps P (fetch q)
  Keeps-fetch q = record { at = λ s p. p }

  pub Keeps-pure : {A : Type 0} (a : A) → Keeps P (pure a)
  Keeps-pure a = record { at = λ s p. p }

  pub Keeps-raise : {A : Type 0} (e : Error) → Keeps P (raise {A = A} e)
  Keeps-raise e = record { at = λ s p. p }

  pub Keeps-raise_if : (b : Bool) (e : Error) → Keeps P (raise_if b e)
  Keeps-raise_if b e = record { at = λ s p. p }

  pub Keeps-or_raise : {A : Type 0} (o : Option A) (e : Error) → Keeps P (or_raise o e)
  Keeps-or_raise none e = record { at = λ s p. p }
  Keeps-or_raise (some a) e = record { at = λ s p. p }

  pub Keeps-if :
      {A : Type 0} (b : Bool) (m n : M A) → Keeps P m → Keeps P n → Keeps P (if b then m else n)
  Keeps-if true m n hm hn = hm
  Keeps-if false m n hm hn = hn

pub ruleset keeps_rules = (
  Keeps-if, Keeps-bind, Keeps-transaction, Keeps-fetch, Keeps-pure, Keeps-raise, Keeps-raise_if,
  Keeps-or_raise,
)
