-- ===== src/Table/Laws.antt =====
-- The laws of tables that the proofs use.
use workcore.Prelude.{
  String, ◌≡◌, ◌↔◌, refl, ap₂, subst, Bool, true, none, some, List, [], ◌∷◌, arith, eq_iff, eq_refl,
  if◌then◌else◌,
}
use workcore.Table.{Table, same_key, find, insert, filter_rows, erase}

pub same_key_refl : (k : List String) → same_key k k ≡ true
same_key_refl [] = refl
same_key_refl (x ∷ xs) = ground (arith, eq_refl x, same_key_refl xs)

pub same_key_eq : (j k : List String) → same_key j k ≡ true → j ≡ k
same_key_eq [] [] h = refl
same_key_eq [] (y ∷ ys) h = absurd (ground arith)
same_key_eq (x ∷ xs) [] h = absurd (ground arith)
same_key_eq (x ∷ xs) (y ∷ ys) h =
    ap₂ (λ a b. a ∷ b) (ground (arith, eq_iff x y)) (same_key_eq xs ys (ground arith))

pub same_key_iff : (j k : List String) → (same_key j k ≡ true) ↔ (j ≡ k)
same_key_iff j k = (same_key_eq j k, λ e. subst (λ x. same_key j x ≡ true) e (same_key_refl j))

module _ {ℓ} {V : Type ℓ} where
  pub find-insert :
      (j k : List String) (v : V) (t : Table V)
      → find j (insert k v t) ≡ (if same_key k j then some v else find j t)
  unfolding find insert
  find-insert j k v [] = refl
  find-insert j k v ((i, w) ∷ t) =
      ground (arith, same_key_iff k j, same_key_iff i k, same_key_iff i j, find-insert j k v t)

  pub find-insert_self : (k : List String) (v : V) (t : Table V) → find k (insert k v t) ≡ some v
  find-insert_self k v t = simp (find-insert, same_key_refl)

  -- A comprehension whose test reads the key alone.
  pub find-filter_rows :
      (p : List String → Bool) (k : List String) (t : Table V)
      → find k (filter_rows (λ j v. p j) t) ≡ (if p k then find k t else none)
  unfolding find filter_rows
  find-filter_rows p k [] = ground arith
  find-filter_rows p k ((i, w) ∷ t) = ground (arith, same_key_iff i k, find-filter_rows p k t)

  pub find-erase :
      (j k : List String) (t : Table V)
      → find j (erase k t) ≡ (if same_key k j then none else find j t)
  unfolding find erase
  find-erase j k [] = ground arith
  find-erase j k ((i, w) ∷ t) =
      ground (arith, same_key_iff k j, same_key_iff i k, same_key_iff i j, find-erase j k t)
