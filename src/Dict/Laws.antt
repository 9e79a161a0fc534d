-- ===== src/Dict/Laws.antt =====
-- The laws of dicts that the proofs use.
use workcore.Prelude.{
  String, ◌≡◌, refl, none, some, [], ◌∷◌, arith, ◌==◌, eq_iff, eq_refl, if◌then◌else◌, contains,
}
use workcore.Dict.{Dict, get, has, put, pop, keys}

module _ {ℓ} {V : Type ℓ} where
  pub get-put :
      (j k : String) (v : V) (d : Dict V) → get j (put k v d) ≡ (if k == j then some v else get j d)
  unfolding get put
  get-put j k v [] = refl
  get-put j k v ((i, w) ∷ d) = ground (arith, eq_iff k j, eq_iff i k, eq_iff i j, get-put j k v d)

  pub get-put_self : (k : String) (v : V) (d : Dict V) → get k (put k v d) ≡ some v
  get-put_self k v d = simp (get-put, eq_refl)

  pub get-pop : (j k : String) (d : Dict V) → get j (pop k d) ≡ (if k == j then none else get j d)
  unfolding get pop
  get-pop j k [] = ground arith
  get-pop j k ((i, w) ∷ d) = ground (arith, eq_iff k j, eq_iff i k, eq_iff i j, get-pop j k d)

  -- A present key keeps its place among the keys, and a new one goes to the end.
  pub contains-keys : (k : String) (d : Dict V) → contains k (keys d) ≡ has k d
  unfolding keys get
  contains-keys k [] = refl
  contains-keys k ((j, v) ∷ d) = ground (arith, contains-keys k d)
