-- ===== src/Prelude/Int.antt =====
-- Signed integers over the native numbers, with the clamp that the parsers use. An i64 keeps its
-- value; `negsuc n` is -(n + 1).
use Prim.Native.Nat.{ℕ}
use hyprstate.Prelude.Tests.{ltb, if◌then◌else◌}

pub data ℤ : Type 0 where
  pos : ℕ → ℤ
  negsuc : ℕ → ℤ

-- `n.clamp(lo, hi)` for bounds that are not negative.
abbrev pub clamp : ℕ → ℕ → ℤ → ℕ
clamp lo hi (pos n) = if ltb n lo then lo else (if ltb hi n then hi else n)
clamp lo hi (negsuc n) = lo
