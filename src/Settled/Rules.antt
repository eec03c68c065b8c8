-- ===== src/Settled/Rules.antt =====
-- Calls that keep a runtime settled and come back.
use mmu.Prelude.{negsuc, Bool, true, false, Option, none, some, ◌≡◌, refl, if◌then◌else◌}
use mmu.Types.{Result, ok, err, stuck, Error}
use mmu.Exec.{Exec, pure, fail, gets, or_fail, fail_if, modify, ◌>>=◌, continue}
use mmu.Exec.Keeps.{Keeps}
use mmu.Exec.Returns.{Returns, returns}
use mmu.Runtime.{Runtime}
use mmu.Frame.{Frames}
use mmu.Residency.Calm.{Calm}
use mmu.Settled.{Settled, Calm-SettledBut}

pub record Settles {A : Type 0} (m : Exec Runtime A) : Type 0 where
  pub settles : (rt : Runtime) → Settled rt → Settled (m rt).1 × (returns (m rt).0 ≡ true)

pub continue-Settles :
    {A B : Type 0} (r : Result A) (f : A → Exec Runtime B) (rt : Runtime)
    → Settled rt × (returns r ≡ true)
    → ((a : A) → Settles (f a))
    → Settled (continue r f rt).1 × (returns (continue r f rt).0 ≡ true)
continue-Settles (ok a) f rt h k = (k a).settles rt h.0
continue-Settles (err e) f rt h k = (h.0, refl)
continue-Settles stuck f rt h k = h

pub Settles-bind :
    {A B : Type 0} (m : Exec Runtime A) (f : A → Exec Runtime B)
    → Settles m
    → ((a : A) → Settles (f a))
    → Settles (m >>= f)
unfolding ◌>>=◌
Settles-bind m f km kf = record {
  settles = λ rt h. continue-Settles (m rt).0 f (m rt).1 (km.settles rt h) kf;
}

pub Settles-pure : {A : Type 0} (a : A) → Settles (pure a)
unfolding pure
Settles-pure a = record { settles = λ rt h. (h, refl) }

pub Settles-gets : {A : Type 0} (f : Runtime → A) → Settles (gets f)
unfolding gets
Settles-gets f = record { settles = λ rt h. (h, refl) }

pub Settles-or_fail : {A : Type 0} (a : Option A) (e : Error) → Settles (or_fail a e)
unfolding or_fail pure fail
Settles-or_fail none e = record { settles = λ rt h. (h, refl) }
Settles-or_fail (some a) e = record { settles = λ rt h. (h, refl) }

pub Settles-fail_if : (b : Bool) (e : Error) → Settles (fail_if b e)
unfolding fail_if
Settles-fail_if true e = record { settles = λ rt h. (h, refl) }
Settles-fail_if false e = record { settles = λ rt h. (h, refl) }

pub Settles-if :
    {A : Type 0} (b : Bool) (m n : Exec Runtime A)
    → Settles m
    → Settles n
    → Settles (if b then m else n)
Settles-if true m n km kn = km
Settles-if false m n km kn = kn

pub Settles-modify :
    (f : Runtime → Runtime)
    → ((rt : Runtime) → Frames rt (f rt))
    → ((rt : Runtime) → Calm rt (f rt))
    → Settles (modify f)
unfolding modify
Settles-modify f k c = record {
  settles = λ rt h. (Calm-SettledBut (negsuc 0) rt (f rt) h (k rt) (c rt), refl);
}

-- A call that changes neither the manager nor the residency of any block.
pub Settles-Calm :
    {A : Type 0} (m : Exec Runtime A) → Keeps Frames m → Keeps Calm m → Returns m → Settles m
Settles-Calm m k c r = record {
  settles = λ rt h. (Calm-SettledBut (negsuc 0) rt (m rt).1 h (k.at rt) (c.at rt), r.from rt);
}

pub ruleset settles_rules = (
  Settles-bind, Settles-pure, Settles-gets, Settles-or_fail, Settles-fail_if, Settles-if,
  Settles-modify,
)
