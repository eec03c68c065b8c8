-- ===== src/Exec/Keeps.antt =====
-- Rules for calls that relate the state before to the state after, whether they succeed or fail.
use mmu.Prelude.{Bool, true, false, Option, none, some, if◌then◌else◌}
use mmu.Types.{Error, Result, ok, err, stuck}
use mmu.Exec.{Exec, pure, fail, gets, or_fail, fail_if, modify, ◌>>=◌, continue}

-- A relation between states that composes.
pub record Order {S : Type 0} (R : S → S → Type 0) : Type 0 where
  pub rel_refl : (s : S) → R s s
  pub rel_trans : (s t u : S) → R s t → R t u → R s u

pub record Keeps {S A : Type 0} (R : S → S → Type 0) (m : Exec S A) : Type 0 where
  pub at : (s : S) → R s (m s).1

module _ {S : Type 0} {R : S → S → Type 0} (o : Order R) where
  continue-rel :
      {A B : Type 0} (r : Result A) (f : A → Exec S B) (s : S)
      → ((a : A) → Keeps R (f a))
      → R s (continue r f s).1
  continue-rel (ok a) f s k = (k a).at s
  continue-rel (err e) f s k = o.rel_refl s
  continue-rel stuck f s k = o.rel_refl s

  pub Keeps-bind :
      {A B : Type 0} (m : Exec S A) (f : A → Exec S B)
      → Keeps R m
      → ((a : A) → Keeps R (f a))
      → Keeps R (m >>= f)
  unfolding ◌>>=◌
  Keeps-bind m f km kf = record {
    at = λ s. o.rel_trans s (m s).1 _ (km.at s) (continue-rel (m s).0 f (m s).1 kf);
  }

  pub Keeps-pure : {A : Type 0} (a : A) → Keeps R (pure {S = S} a)
  unfolding pure
  Keeps-pure a = record { at = λ s. o.rel_refl s }

  pub Keeps-gets : {A : Type 0} (f : S → A) → Keeps R (gets f)
  unfolding gets
  Keeps-gets f = record { at = λ s. o.rel_refl s }

  pub Keeps-or_fail : {A : Type 0} (a : Option A) (e : Error) → Keeps R (or_fail {S = S} a e)
  unfolding or_fail pure fail
  Keeps-or_fail none e = record { at = λ s. o.rel_refl s }
  Keeps-or_fail (some a) e = record { at = λ s. o.rel_refl s }

  pub Keeps-fail_if : (b : Bool) (e : Error) → Keeps R (fail_if {S = S} b e)
  unfolding fail_if
  Keeps-fail_if true e = record { at = λ s. o.rel_refl s }
  Keeps-fail_if false e = record { at = λ s. o.rel_refl s }

  pub Keeps-if :
      {A : Type 0} (b : Bool) (m n : Exec S A)
      → Keeps R m
      → Keeps R n
      → Keeps R (if b then m else n)
  Keeps-if true m n km kn = km
  Keeps-if false m n km kn = kn

  pub Keeps-modify : (f : S → S) → ((s : S) → R s (f s)) → Keeps R (modify f)
  unfolding modify
  Keeps-modify f h = record { at = h }

pub ruleset keeps_rules =
    (Keeps-bind, Keeps-pure, Keeps-gets, Keeps-or_fail, Keeps-fail_if, Keeps-if, Keeps-modify)
