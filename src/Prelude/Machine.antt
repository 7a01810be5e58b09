-- ===== src/Prelude/Machine.antt =====
-- Unsigned machine integers of `w` bits, held in ℕ: the checked and the saturating operations.
use Prim.Native.Nat.{ℕ, ◌+◌, ◌-◌, ◌*◌, ◌^◌}
use mathlib.Core.Option.{Option, none, some}
use nexus_sdk.Prelude.Tests.{ltb, if◌then◌else◌}

-- `u64::try_from(v).ok()` for w = 64.
abbrev pub fitting : ℕ → ℕ → Option ℕ
fitting w v = if ltb v (2 ^ w) then some v else none

abbrev pub checked_add : ℕ → ℕ → ℕ → Option ℕ
checked_add w a b = fitting w (a + b)

abbrev pub checked_mul : ℕ → ℕ → ℕ → Option ℕ
checked_mul w a b = fitting w (a * b)

abbrev pub saturated : ℕ → ℕ → ℕ
saturated w v = if ltb v (2 ^ w) then v else 2 ^ w - 1

abbrev pub saturating_add : ℕ → ℕ → ℕ → ℕ
saturating_add w a b = saturated w (a + b)

abbrev pub saturating_mul : ℕ → ℕ → ℕ → ℕ
saturating_mul w a b = saturated w (a * b)
