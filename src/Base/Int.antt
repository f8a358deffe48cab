-- ===== src/Base/Int.antt =====
-- time.Duration and other signed numbers: `negsuc n` is -(n + 1).
use Prim.Native.Nat.{ℕ, zero, suc, ◌-◌, ◌<◌}
use native.Mathlib.Omega.{arith}
use vcos.Base.Tests.{leb, if◌then◌else◌}

pub data ℤ : Type 0 where
  pos : ℕ → ℤ
  negsuc : ℕ → ℤ

-- a - b, as an integer.
abbrev pub sub_ℕ : ℕ → ℕ → ℤ
sub_ℕ a b = if leb b a then pos (a - b) else negsuc (b - a - 1)

-- `if d <= 0 { d = default }`: what is left is positive, if the default is.
unfoldable pub positive_or : ℤ → ℕ → ℕ
positive_or (pos zero) default = default
positive_or (pos (suc n)) default = suc n
positive_or (negsuc n) default = default

pub positive_or_pos : (d : ℤ) (default : ℕ) → 0 < default → 0 < positive_or d default
unfolding positive_or
positive_or_pos (pos zero) default h = h
positive_or_pos (pos (suc n)) default h = omega arith
positive_or_pos (negsuc n) default h = h
