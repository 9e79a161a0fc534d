-- ===== src/Sorting.antt =====
-- Python's stable `sort` as stable insertion, with the test of which of two items may come first.
pub mod Laws
use workcore.Prelude.{ℕ, String, Bool, List, [], ◌∷◌, leb, if◌then◌else◌}
use Prim.Native.String.{compare}
use package.text.Mathlib.Text.{is_le}

module _ {ℓ} {A : Type ℓ} where
  unfoldable pub insert_by : (A → A → Bool) → A → List A → List A
  insert_by first x [] = x ∷ []
  insert_by first x (y ∷ ys) =
      let rest = insert_by first x ys in if first x y then x ∷ y ∷ ys else y ∷ rest

  unfoldable pub sort_by : (A → A → Bool) → List A → List A
  sort_by first [] = []
  sort_by first (x ∷ xs) = insert_by first x (sort_by first xs)

  -- `sort(key=key, reverse=True)` for a number, and `sort(key=key)` for a text
  abbrev pub latest_by : (A → ℕ) → List A → List A
  latest_by key = sort_by (λ x y. leb (key y) (key x))

  abbrev pub sort_text : (A → String) → List A → List A
  sort_text key = sort_by (λ x y. is_le (compare (key x) (key y)))
