-- ===== src/Exec.antt =====
-- Calls that change an object and may fail. What was written before a failure stays written, so
-- the state comes back beside the error too.
pub mod Keeps
pub mod Returns
use mmu.Prelude.{Bool, true, false, Option, none, some}
use mmu.Types.{Error, Result, ok, err, stuck}

abbrev pub Exec : Type 0 → Type 0 → Type 0
Exec S A = S → Result A × S

module _ {S A : Type 0} where
  unfoldable pub pure : A → Exec S A
  pure a s = (ok a, s)

  -- `return status;`
  unfoldable pub fail : Error → Exec S A
  fail e s = (err e, s)

  unfoldable pub gets : (S → A) → Exec S A
  gets f s = (ok (f s), s)

  -- `if (!f(&out)) return e;`
  unfoldable pub or_fail : Option A → Error → Exec S A
  or_fail none e = fail e
  or_fail (some a) e = pure a

module _ {S : Type 0} where
  -- `if (b) return e;`
  unfoldable pub fail_if : Bool → Error → Exec S (Unit {0})
  fail_if true e s = (err e, s)
  fail_if false e s = (ok tt, s)

  -- A call whose result is `void`, or dropped.
  unfoldable pub modify : (S → S) → Exec S (Unit {0})
  modify f s = (ok tt, f s)

module _ {S A B : Type 0} where
  abbrev pub continue : Result A → (A → Exec S B) → Exec S B
  continue (ok a) f s = f a s
  continue (err e) f s = (err e, s)
  continue stuck f s = (stuck, s)

  infixl 5 ◌>>=◌ ◌>>◌
  unfoldable pub ◌>>=◌ : Exec S A → (A → Exec S B) → Exec S B
  unfolding pure fail gets or_fail fail_if modify
  ◌>>=◌ m f s = let (r, s') = m s in continue r f s'

  abbrev pub ◌>>◌ : Exec S A → Exec S B → Exec S B
  m >> k = m >>= λ _. k

-- `(void)f(x)`: where `f` fails the state stays.
abbrev pub or_same : {S : Type 0} → S → Option S → S
or_same s none = s
or_same s (some s') = s'
