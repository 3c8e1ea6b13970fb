-- ===== src/Base/Exec.antt =====
-- A Go call with an outside world: an outcome, and the world afterwards.
use optimizer_canary_service.Base.Outcomes.{Outcome, ok, err, panic}

abbrev pub Exec : Type 0 → Type 0 → Type 0 → Type 0
Exec S E A = S → Outcome E A × S

module _ {S E A B : Type 0} where
  unfoldable pub continue : Outcome E A × S → (A → Exec S E B) → Outcome E B × S
  continue (ok a, s) f = f a s
  continue (err e, s) f = (err e, s)
  continue (panic, s) f = (panic, s)

  infixl 5 ◌>>=◌
  abbrev pub ◌>>=◌ : Exec S E A → (A → Exec S E B) → Exec S E B
  ◌>>=◌ m f s = continue (m s) f

module _ {S E A : Type 0} where
  abbrev pub pure : A → Exec S E A
  pure a s = (ok a, s)

  abbrev pub lift : Outcome E A → Exec S E A
  lift r s = (r, s)

module _ {E F A : Type 0} where
  -- The value, or the error that `wrap` makes of the cause.
  unfoldable pub wrapped : (F → E) → Outcome F A → Outcome E A
  wrapped wrap (ok a) = ok a
  wrapped wrap (err e) = err (wrap e)
  wrapped wrap panic = panic
