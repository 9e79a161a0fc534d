-- ===== src/Prelude/Int.antt =====
-- Python's integers as they stand in JSON, over the native numbers, with the orders that are used.
use Prim.Native.Nat.{ℕ, suc, ◌+◌, ◌*◌, ◌^◌}
use mathlib.Core.Bool.{Bool}
use workcore.Prelude.Tests.{leb, ltb}

-- `negsuc n` is -(n + 1).
pub data ℤ : Type 0 where
  pos : ℕ → ℤ
  negsuc : ℕ → ℤ

abbrev pub pos_part : ℤ → ℕ
pos_part (pos n) = n
pos_part (negsuc n) = 0

abbrev pub neg_part : ℤ → ℕ
neg_part (pos n) = 0
neg_part (negsuc n) = suc n

-- a ≤ b
abbrev pub leb_ℤ : ℤ → ℤ → Bool
leb_ℤ a b = leb (pos_part a + neg_part b) (pos_part b + neg_part a)

-- A finite binary float is an integer over a power of two: `record { num = m; scale = k }` is
-- m / 2 ^ k.
pub record Float : Type 0 where
  pub num : ℤ
  pub scale : ℕ

abbrev pub of_int : ℤ → Float
of_int m = record { num = m; scale = 0 }

-- a < b
abbrev pub ltb_float : Float → Float → Bool
ltb_float a b =
    ltb (pos_part a.num * 2 ^ b.scale + neg_part b.num * 2 ^ a.scale)
      (pos_part b.num * 2 ^ a.scale + neg_part a.num * 2 ^ b.scale)
