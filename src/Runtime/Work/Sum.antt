-- ===== src/Runtime/Work/Sum.antt =====
-- Sums over the keys of a dict.
use workcore.Prelude.{ℕ, ◌+◌, ◌≤◌, ◌<◌, String, ◌≡◌, true, [], ◌∷◌, arith, eq_iff}
use workcore.Dict.{Dict, get, has}

module _ {V : Type 0} where
  abbrev pub sum_at : (String → ℕ) → Dict V → ℕ
  sum_at f [] = 0
  sum_at f ((k, v) ∷ d) = f k + sum_at f d

  pub sum_at_mono :
      (f g : String → ℕ) (d : Dict V) → ((k : String) → f k ≤ g k) → sum_at f d ≤ sum_at g d
  sum_at_mono f g [] h = omega arith
  sum_at_mono f g ((k, v) ∷ d) h = omega (arith, h k, sum_at_mono f g d h)

  -- A sum falls where one of its terms falls and none grows.
  pub sum_at-lt :
      (f g : String → ℕ) (d : Dict V) (i : String)
      → ((k : String) → f k ≤ g k)
      → f i < g i
      → has i d ≡ true
      → sum_at f d < sum_at g d
  unfolding get
  sum_at-lt f g [] i h less m = cc
  sum_at-lt f g ((k, v) ∷ d) i h less m =
      ground (arith, h k, eq_iff k i, sum_at_mono f g d h, sum_at-lt f g d i h)
