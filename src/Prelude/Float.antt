-- ===== src/Prelude/Float.antt =====
-- The doubles that the program compares with whole numbers. Every finite double is a fraction, so
-- the comparisons here are exact; they are the only operations on doubles that the model needs.
use Prim.Native.Nat.{ℕ, suc, ◌*◌}
use mathlib.Core.Bool.{Bool, true, false}
use hyprstate.Prelude.Tests.{leb}

-- `frac n d` is n / (d + 1); `neg` is any value below zero.
pub data F64 : Type 0 where
  nan neg inf : F64
  frac : ℕ → ℕ → F64

-- `x <= m as f64`.
abbrev pub le_nat : F64 → ℕ → Bool
le_nat nan m = false
le_nat neg m = true
le_nat inf m = false
le_nat (frac n d) m = leb n (m * suc d)

-- `x >= m as f64`.
abbrev pub ge_nat : F64 → ℕ → Bool
ge_nat nan m = false
ge_nat neg m = false
ge_nat inf m = true
ge_nat (frac n d) m = leb (m * suc d) n
