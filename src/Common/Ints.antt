-- ===== src/Common/Ints.antt =====
-- Signed integers where the source takes an arbitrary `int`.
use Prim.Native.Nat.{ℕ}
use mathlib.Core.Option.{Option, none, some}
use fuck_wjx.Common.Tests.{if◌then◌else◌, ltb}

-- `negsuc n` is -(n + 1).
pub data ℤ : Type 0 where
  pos : ℕ → ℤ
  negsuc : ℕ → ℤ

-- The index that an integer stands for, when `0 <= z < bound`.
abbrev pub index_below : ℕ → ℤ → Option ℕ
index_below bound (pos n) = if ltb n bound then some n else none
index_below bound (negsuc n) = none

-- `max(0, z)`
abbrev pub to_ℕ : ℤ → ℕ
to_ℕ (pos n) = n
to_ℕ (negsuc n) = 0
