-- ===== src/Sorting/Laws.antt =====
-- A sort keeps the items, and puts them in order.
use workcore.Prelude.{
  suc, ◌≡◌, refl, inl, inr, Bool, true, false, ◌||◌, List, [], ◌∷◌, arith, any, Bool-cases, length,
}
use workcore.Sorting.{insert_by, sort_by}

module _ {ℓ} {A : Type ℓ} (first : A → A → Bool) where
  any-insert_by :
      (p : A → Bool) (x : A) (l : List A) → any p (insert_by first x l) ≡ (p x || any p l)
  unfolding insert_by
  any-insert_by p x [] = refl
  any-insert_by p x (y ∷ l) = ground (arith, any-insert_by p x l)

  -- What some item of the list has, some item of the sorted list has.
  pub any-sort_by : (p : A → Bool) (l : List A) → any p (sort_by first l) ≡ any p l
  unfolding sort_by
  any-sort_by p [] = refl
  any-sort_by p (x ∷ l) = ground (arith, any-insert_by p x (sort_by first l), any-sort_by p l)

  length-insert_by : (x : A) (l : List A) → length (insert_by first x l) ≡ suc (length l)
  unfolding insert_by
  length-insert_by x [] = refl
  length-insert_by x (y ∷ l) = ground (arith, length-insert_by x l)

  pub length-sort_by : (l : List A) → length (sort_by first l) ≡ length l
  unfolding sort_by
  length-sort_by [] = refl
  length-sort_by (x ∷ l) = omega (arith, length-insert_by x (sort_by first l), length-sort_by l)

  -- Each item may come before those after it.
  abbrev pub Heads : A → List A → Type 0
  Heads x [] = Unit
  Heads x (y ∷ ys) = (first x y ≡ true) × Heads x ys

  abbrev pub Ordered : List A → Type 0
  Ordered [] = Unit
  Ordered (x ∷ xs) = Heads x xs × Ordered xs

  module _ (total : (x y : A) → first x y ≡ false → first y x ≡ true)
      (trans : (x y z : A) → first x y ≡ true → first y z ≡ true → first x z ≡ true) where
    Heads-insert_by :
        (x y : A) (l : List A) → first y x ≡ true → Heads y l → Heads y (insert_by first x l)
    unfolding insert_by
    Heads-insert_by x y [] h t = (h, tt)
    Heads-insert_by x y (z ∷ l) h (here, t) = elim (Bool-cases (first x z)) [
      | inl le ↦ rw le (h, (here, t))
      | inr gt ↦ rw gt (here, Heads-insert_by x y l h t)
    ]

    Heads-trans : (x y : A) (l : List A) → first x y ≡ true → Heads y l → Heads x l
    Heads-trans x y [] h t = tt
    Heads-trans x y (z ∷ l) h (here, t) = (trans x y z h here, Heads-trans x y l h t)

    insert_by-Ordered : (x : A) (l : List A) → Ordered l → Ordered (insert_by first x l)
    unfolding insert_by
    insert_by-Ordered x [] t = (tt, tt)
    insert_by-Ordered x (y ∷ l) (heads, t) = elim (Bool-cases (first x y)) [
      | inl le ↦ rw le ((le, Heads-trans x y l le heads), (heads, t))
      | inr gt ↦ rw gt (Heads-insert_by x y l (total x y gt) heads, insert_by-Ordered x l t)
    ]

    pub sort_by-Ordered : (l : List A) → Ordered (sort_by first l)
    unfolding sort_by
    sort_by-Ordered [] = tt
    sort_by-Ordered (x ∷ l) = insert_by-Ordered x (sort_by first l) (sort_by-Ordered l)
