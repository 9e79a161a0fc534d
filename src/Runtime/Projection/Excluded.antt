-- ===== src/Runtime/Projection/Excluded.antt =====
-- What `apply_state_exclude_paths` of runtime/projection.py leaves out.
use workcore.Prelude.{
  String, ◌≡◌, refl, sym, ap, ◌∙◌, inl, inr, true, false, ◌||◌, none, some, List, [], ◌∷◌, ◌==◌,
  arith, eq_iff, Bool-cases, Option-cases, contains,
}
use workcore.Value.{
  Value, null, boolean, int, float, str, arr, obj, Items, nil, cons, Fields, end, field,
}
use workcore.Runtime.Projection.{
  exclude_path, exclude_fields, exclude_each, exclude_kept, select_path, select_fields, select_key,
  select_each, select_kept, or_else, segments, is_valid_projection_path, apply_state_exclude_paths,
}
use workcore.Runtime.Projection.Parts.{
  after, exclude_path-some, some_fields-end, some_items-nil, under-none, keep_field-end,
  keep_item-nil, field_out, key_skip, key_out, each_out, kept_out, or_else-none,
}

-- Nothing is found at a path that was excluded.
mutual
  unfolding exclude_path select_path

  gone : (v : Value) (p : List String) → after (exclude_path v p) p ≡ none
  gone v [] = refl
  gone null (s ∷ rest) = refl
  gone (boolean b) (s ∷ rest) = refl
  gone (int n) (s ∷ rest) = refl
  gone (float x) (s ∷ rest) = refl
  gone (str t) (s ∷ rest) = refl
  gone (obj d) (s ∷ rest) = elim (Bool-cases (s == "*")) [
    | inl star ↦ rw (star, gone_fields d s rest star) refl
    | inr key ↦ rw (key, gone_key d s rest key) refl
  ]
  gone (arr l) (s ∷ rest) = elim (Bool-cases (s == "*")) [
    | inl star ↦ rw (star, gone_each l rest) refl
    | inr key ↦ rw (key, gone_kept l s rest) refl
  ]

  gone_fields :
      (d : Fields) (s : String) (rest : List String)
      → (s == "*") ≡ true
      → select_fields (exclude_fields d s rest) rest ≡ end
  gone_fields end s rest star = refl
  gone_fields (field k v d) s rest star = ground (arith, gone v rest, gone_fields d s rest star)

  gone_key :
      (d : Fields) (s : String) (rest : List String)
      → (s == "*") ≡ false
      → select_key (exclude_fields d s rest) s rest ≡ none
  gone_key end s rest key = refl
  gone_key (field k v d) s rest key = ground (arith, gone v rest, gone_key d s rest key)

  gone_each : (l : Items) (rest : List String) → select_each (exclude_each l rest) rest ≡ nil
  gone_each nil rest = refl
  gone_each (cons v l) rest = ground (arith, gone v rest, gone_each l rest)

  gone_kept :
      (l : Items) (s : String) (rest : List String)
      → select_kept (exclude_kept l s rest) s rest ≡ nil
  gone_kept nil s rest = refl
  gone_kept (cons v l) s rest =
      ground (arith, gone v (s ∷ rest), gone_kept l s rest, exclude_path-some v s rest)

-- A key that an exclusion deletes is not selected afterwards, whatever is asked below it.
deleted_key :
    (d : Fields) (t s : String) (rest : List String)
    → (t == "*" || s == t) ≡ true
    → select_key (exclude_fields d t []) s rest ≡ none
unfolding exclude_path select_path
deleted_key end t s rest h = refl
deleted_key (field k v d) t s rest h = ground (arith, deleted_key d t s rest h, eq_iff k s)

-- What is found nowhere is found nowhere after an exclusion at any path.
mutual
  unfolding exclude_path select_path

  stays :
      (v : Value) (p q : List String) → select_path v p ≡ none → after (exclude_path v q) p ≡ none
  stays v [] q h = ground arith
  stays v (s ∷ p) [] h = refl
  stays null (s ∷ p) (t ∷ q) h = refl
  stays (boolean b) (s ∷ p) (t ∷ q) h = refl
  stays (int n) (s ∷ p) (t ∷ q) h = refl
  stays (float x) (s ∷ p) (t ∷ q) h = refl
  stays (str u) (s ∷ p) (t ∷ q) h = refl
  stays (obj d) (s ∷ p) (t ∷ q) h = elim (Bool-cases (s == "*")) [
    | inl star ↦ rw (star, stays_fields d t p q (some_fields-end _ (rw star at h))) refl
    | inr key ↦ rw (key, stays_key d s t p q (under-none s _ (rw key at h))) refl
  ]
  stays (arr l) (s ∷ p) (t ∷ q) h = elim (Bool-cases (s == "*")) [
    | inl star ↦
        let none_ = some_items-nil _ (rw star at h) in
        elim (Bool-cases (t == "*")) [
          | inl all ↦ rw (star, all, each_each l p q none_) refl
          | inr one ↦ rw (star, one, each_kept l t p q none_) refl
        ]
    | inr key ↦
        let none_ = some_items-nil _ (rw key at h) in
        elim (Bool-cases (t == "*")) [
          | inl all ↦ rw (key, all, kept_each l s p q none_) refl
          | inr one ↦ rw (key, one, kept_kept l s t p q none_) refl
        ]
  ]

  stays_fields :
      (d : Fields) (t : String) (p q : List String)
      → select_fields d p ≡ end
      → select_fields (exclude_fields d t q) p ≡ end
  stays_fields end t p q h = refl
  stays_fields (field k v d) t p q h =
      let (here, rest) = keep_field-end k _ _ h in
      field_out (t == "*" || k == t) k v (exclude_path v q) _ p here (stays v p q here)
        (stays_fields d t p q rest)

  stays_key :
      (d : Fields) (s t : String) (p q : List String)
      → select_key d s p ≡ none
      → select_key (exclude_fields d t q) s p ≡ none
  stays_key end s t p q h = refl
  stays_key (field k v d) s t p [] h = elim (Bool-cases (k == s)) [
    | inl same ↦
        let here : select_path v p ≡ none = rw same at h in
        key_out (t == "*" || k == t) k s v (exclude_path v []) _ p same here (stays v p [] here)
          (λ b o. deleted_key d t s p (ground (arith, eq_iff k s)))
    | inr other ↦
        key_skip (t == "*" || k == t) k s v (exclude_path v []) _ p other
          (stays_key d s t p [] (rw other at h))
  ]
  stays_key (field k v d) s t p (u ∷ q) h = elim (Bool-cases (k == s)) [
    | inl same ↦
        let here : select_path v p ≡ none = rw same at h in
        key_out (t == "*" || k == t) k s v (exclude_path v (u ∷ q)) _ p same here
          (stays v p (u ∷ q) here) (λ b o. absurd (exclude_path-some v u q o))
    | inr other ↦
        key_skip (t == "*" || k == t) k s v (exclude_path v (u ∷ q)) _ p other
          (stays_key d s t p (u ∷ q) (rw other at h))
  ]

  each_each :
      (l : Items) (p q : List String)
      → select_each l p ≡ nil
      → select_each (exclude_each l q) p ≡ nil
  each_each nil p q h = refl
  each_each (cons v l) p q h =
      let (here, rest) = keep_item-nil _ _ h in
      each_out (exclude_path v q) _ p (stays v p q here) (each_each l p q rest)

  each_kept :
      (l : Items) (t : String) (p q : List String)
      → select_each l p ≡ nil
      → select_each (exclude_kept l t q) p ≡ nil
  each_kept nil t p q h = refl
  each_kept (cons v l) t p q h =
      let (here, rest) = keep_item-nil _ _ h in
      let seen = or_else-none (exclude_path v (t ∷ q)) v p here (stays v p (t ∷ q) here) in
      each_out (some (or_else (exclude_path v (t ∷ q)) v)) _ p seen (each_kept l t p q rest)

  kept_each :
      (l : Items) (s : String) (p q : List String)
      → select_kept l s p ≡ nil
      → select_kept (exclude_each l q) s p ≡ nil
  kept_each nil s p q h = refl
  kept_each (cons v l) s p q h =
      let (here, rest) = keep_item-nil _ _ h in
      kept_out (exclude_path v q) _ s p (stays v (s ∷ p) q here) (kept_each l s p q rest)

  kept_kept :
      (l : Items) (s t : String) (p q : List String)
      → select_kept l s p ≡ nil
      → select_kept (exclude_kept l t q) s p ≡ nil
  kept_kept nil s t p q h = refl
  kept_kept (cons v l) s t p q h =
      let (here, rest) = keep_item-nil _ _ h in
      let a = stays v (s ∷ p) (t ∷ q) here in
      let seen = or_else-none (exclude_path v (t ∷ q)) v (s ∷ p) here a in
      kept_out (some (or_else (exclude_path v (t ∷ q)) v)) (exclude_kept l t q) s p seen
        (kept_kept l s t p q rest)

stays_excluded :
    (state : Value) (paths : List String) (p : List String)
    → select_path state p ≡ none
    → select_path (apply_state_exclude_paths state paths) p ≡ none
unfolding apply_state_exclude_paths
stays_excluded state [] p h = h
stays_excluded state (path ∷ rest) p h = elim (Option-cases (exclude_path state (segments path))) [
  | inl gone_ ↦ absurd (exclude_path-some state _ _ gone_)
  | inr (v, e) ↦
      let seen : select_path v p ≡ none =
        ap (λ x. after x p) (sym e) ∙ stays state p (segments path) h in
      ground (arith, stays_excluded state rest p h, stays_excluded v rest p seen)
]

-- Nothing can be selected at an excluded path: where a path is valid and among those given, the
-- selection at its segments in the state that `apply_state_exclude_paths` returns is missing. That
-- holds for wildcards too, and whatever other paths were excluded before or after it.
pub apply_state_exclude_paths-hides :
    (state : Value) (paths : List String) (path : String)
    → contains path paths ≡ true
    → is_valid_projection_path path ≡ true
    → select_path (apply_state_exclude_paths state paths) (segments path) ≡ none
unfolding apply_state_exclude_paths
apply_state_exclude_paths-hides state [] path h valid = absurd (ground arith)
apply_state_exclude_paths-hides state (other ∷ rest) path h valid =
    elim (Option-cases (exclude_path state (segments other))) [
      | inl none_ ↦ absurd (exclude_path-some state _ _ none_)
      | inr (v, e) ↦
          let seen : select_path v (segments other) ≡ none =
            ap (λ x. after x (segments other)) (sym e) ∙ gone state (segments other) in
          ground (
            arith,
            apply_state_exclude_paths-hides state rest path,
            apply_state_exclude_paths-hides v rest path,
            stays_excluded v rest (segments other) seen,
            eq_iff other path,
          )
    ]
