-- ===== src/Base/Int.antt =====
-- Signed integers, for durations that a clock set back may make negative.
use Prim.Native.Nat.{ℕ, zero, suc, ◌-◌, ◌/◌}
use fleet_api.Base.Tests.{leb, if◌then◌else◌}

-- `negsuc n` is -(n + 1).
pub data ℤ : Type 0 where
  pos : ℕ → ℤ
  negsuc : ℕ → ℤ

abbrev pub negate : ℕ → ℤ
negate zero = pos 0
negate (suc n) = negsuc n

-- The clock is read in microseconds.
abbrev pub second : ℕ
second = 1_000_000

-- `int((later - earlier).total_seconds())`; `int` rounds towards zero.
abbrev pub whole_seconds : ℕ → ℕ → ℤ
whole_seconds later earlier =
    if leb earlier later
    then pos ((later - earlier) / second)
    else negate ((earlier - later) / second)
