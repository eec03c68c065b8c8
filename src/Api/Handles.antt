-- ===== src/Api/Handles.antt =====
-- A call through an `mmu_handle_t`, which may be null, and the conversion of its numbers.
use mmu.Prelude.{ℕ, ℤ, pos, Option, none, some, ltb, int_max, if◌then◌else◌}
use mmu.Types.{Error, Result, err}
use mmu.Exec.{Exec}
use mmu.Runtime.{Runtime}

-- `none` is the null handle.
abbrev pub Handle : Type 0
Handle = Option Runtime

abbrev pub Call : Type 0 → Type 0
Call A = Exec Handle A

abbrev return_to : {A : Type 0} → Result A × Runtime → Result A × Handle
return_to (r, rt) = (r, some rt)

-- `if (mmu == nullptr) return e;`, and the rest of the call under the lock.
abbrev pub on_runtime : {A : Type 0} → Error → Exec Runtime A → Call A
on_runtime e m none = (err e, none)
on_runtime e m (some rt) = return_to (m rt)

-- U32ToInt
abbrev pub to_int : ℕ → Option ℤ
to_int value = if ltb int_max value then none else some (pos value)
