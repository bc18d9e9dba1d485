-- ===== src/Base/Integers.antt =====
-- The `int` differences that the comparisons of bytes return.
use Prim.Native.Nat.{ℕ, ◌-◌}
use mathlib.Core.Path.{◌≡◌}
use mathlib.Core.Logic.{◌↔◌}
use native.Mathlib.Omega.{arith}
use archa_os.Base.Tests.{leb, if◌then◌else◌}

pub data ℤ : Type 0 where
  pos : ℕ → ℤ
  negsuc : ℕ → ℤ

-- `x - y` of two unsigned bytes.
unfoldable pub diff : ℕ → ℕ → ℤ
diff x y = if leb y x then pos (x - y) else negsuc (y - x - 1)

pub diff-zero_iff : (x y : ℕ) → (diff x y ≡ pos 0) ↔ (x ≡ y)
unfolding diff
diff-zero_iff x y = ground arith
