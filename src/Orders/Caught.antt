-- ===== src/Orders/Caught.antt =====
-- services/order_service.py: `except InsufficientCreditError` keeps what its body keeps.
use baste.Schema.{Db}
use baste.Exec.{M, Result, ok, err, insufficient_credit}
use baste.Exec.Keeps.{Keeps}
use baste.Orders.{caught, catch_insufficient}

module _ (P : Db → Type 0) where
  caught-keeps : (r : Result Unit × Db) → P r.1 → P (caught r).1
  unfolding caught
  caught-keeps (ok _, s) p = p
  caught-keeps (err insufficient_credit, s) p = p
  caught-keeps (err e, s) p = p

pub Keeps-caught : {P : Db → Type 0} (m : M Unit) → Keeps P m → Keeps P (catch_insufficient m)
Keeps-caught {P} m h = record { at = λ s p. caught-keeps P (m s) (h.at s p) }
