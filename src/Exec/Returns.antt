-- ===== src/Exec/Returns.antt =====
-- Rules for calls that come back with a result or an error, and do not run out of fuel.
use mmu.Prelude.{Bool, true, false, Option, none, some, if◌then◌else◌, ◌≡◌, refl}
use mmu.Types.{Error, Result, ok, err, stuck}
use mmu.Exec.{Exec, pure, fail, gets, or_fail, fail_if, modify, ◌>>=◌, continue}

abbrev pub returns : {A : Type 0} → Result A → Bool
returns (ok a) = true
returns (err e) = true
returns stuck = false

-- A call that comes back has a value or an error.
pub data Came {A : Type 0} (r : Result A) : Type 0 where
  with_error : (e : Error) → r ≡ err e → Came r
  with_value : (a : A) → r ≡ ok a → Came r

pub came : {A : Type 0} (r : Result A) → returns r ≡ true → Came r
came stuck h = absurd (cc)
came (err e) h = with_error e refl
came (ok a) h = with_value a refl

pub record Returns {S A : Type 0} (m : Exec S A) : Type 0 where
  pub from : (s : S) → returns (m s).0 ≡ true

module _ {S : Type 0} where
  continue-returns :
      {A B : Type 0} (r : Result A) (f : A → Exec S B) (s : S)
      → returns r ≡ true
      → ((a : A) → Returns (f a))
      → returns (continue r f s).0 ≡ true
  continue-returns (ok a) f s h k = (k a).from s
  continue-returns (err e) f s h k = refl
  continue-returns stuck f s h k = h

  pub Returns-bind :
      {A B : Type 0} (m : Exec S A) (f : A → Exec S B)
      → Returns m
      → ((a : A) → Returns (f a))
      → Returns (m >>= f)
  unfolding ◌>>=◌
  Returns-bind m f km kf = record { from = λ s. continue-returns (m s).0 f (m s).1 (km.from s) kf }

  pub Returns-pure : {A : Type 0} (a : A) → Returns (pure {S = S} a)
  unfolding pure
  Returns-pure a = record { from = λ s. refl }

  pub Returns-gets : {A : Type 0} (f : S → A) → Returns (gets f)
  unfolding gets
  Returns-gets f = record { from = λ s. refl }

  pub Returns-or_fail : {A : Type 0} (a : Option A) (e : Error) → Returns (or_fail {S = S} a e)
  unfolding or_fail pure fail
  Returns-or_fail none e = record { from = λ s. refl }
  Returns-or_fail (some a) e = record { from = λ s. refl }

  pub Returns-fail_if : (b : Bool) (e : Error) → Returns (fail_if {S = S} b e)
  unfolding fail_if
  Returns-fail_if true e = record { from = λ s. refl }
  Returns-fail_if false e = record { from = λ s. refl }

  pub Returns-if :
      {A : Type 0} (b : Bool) (m n : Exec S A)
      → Returns m
      → Returns n
      → Returns (if b then m else n)
  Returns-if true m n km kn = km
  Returns-if false m n km kn = kn

  pub Returns-modify : (f : S → S) → Returns (modify f)
  unfolding modify
  Returns-modify f = record { from = λ s. refl }

pub ruleset returns_rules = (
  Returns-bind, Returns-pure, Returns-gets, Returns-or_fail, Returns-fail_if, Returns-if,
  Returns-modify,
)
