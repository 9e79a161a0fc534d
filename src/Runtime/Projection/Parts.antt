-- ===== src/Runtime/Projection/Parts.antt =====
-- One step of an exclusion or a selection in runtime/projection.py, for the proofs.
use workcore.Prelude.{
  String, ◌≡◌, ◌≢◌, refl, Bool, true, false, Option, none, some, List, ◌∷◌, ◌==◌, arith,
  if◌then◌else◌,
}
use workcore.Value.{
  Value, null, boolean, int, float, str, arr, obj, Items, nil, cons, Fields, end, field,
}
use workcore.Runtime.Projection.{
  exclude_path, select_path, select_fields, select_key, select_each, select_kept, keep_field,
  keep_item, or_else, under, some_fields, some_items,
}

-- The selection in what an exclusion leaves.
abbrev pub after : Option Value → List String → Option Value
after none p = none
after (some v) p = select_path v p

pub exclude_path-some :
    (v : Value) (s : String) (rest : List String) → exclude_path v (s ∷ rest) ≢ none
unfolding exclude_path
exclude_path-some null s rest e = ground arith
exclude_path-some (boolean b) s rest e = ground arith
exclude_path-some (int n) s rest e = ground arith
exclude_path-some (float x) s rest e = ground arith
exclude_path-some (str t) s rest e = ground arith
exclude_path-some (arr l) s rest e = ground arith
exclude_path-some (obj d) s rest e = ground arith

pub some_fields-end : (d : Fields) → some_fields d ≡ none → d ≡ end
some_fields-end end h = refl
some_fields-end (field k v d) h = ground arith

pub some_items-nil : (l : Items) → some_items l ≡ none → l ≡ nil
some_items-nil nil h = refl
some_items-nil (cons v l) h = ground arith

pub under-none : (s : String) (v : Option Value) → under s v ≡ none → v ≡ none
under-none s none h = refl
under-none s (some v) h = ground arith

-- The parts of a selection in which nothing is found.
pub keep_field-end :
    (k : String) (o : Option Value) (d : Fields) → keep_field k o d ≡ end → (o ≡ none) × (d ≡ end)
keep_field-end k none d h = (refl, h)
keep_field-end k (some v) d h = absurd (ground arith)

pub keep_item-nil : (o : Option Value) (l : Items) → keep_item o l ≡ nil → (o ≡ none) × (l ≡ nil)
keep_item-nil none l h = (refl, h)
keep_item-nil (some v) l h = absurd (ground arith)

-- One more field or item in which nothing is found.
pub field_out :
    (b : Bool) (k : String) (v : Value) (o : Option Value) (d : Fields) (p : List String)
    → select_path v p ≡ none
    → after o p ≡ none
    → select_fields d p ≡ end
    → select_fields (if b then keep_field k o d else field k v d) p ≡ end
unfolding select_path
field_out true k v none d p h a t = t
field_out true k v (some w) d p h a t = rw (a, t) refl
field_out false k v o d p h a t = rw (h, t) refl

pub key_skip :
    (b : Bool) (k s : String) (v : Value) (o : Option Value) (d : Fields) (p : List String)
    → (k == s) ≡ false
    → select_key d s p ≡ none
    → select_key (if b then keep_field k o d else field k v d) s p ≡ none
unfolding select_path
key_skip true k s v none d p other t = t
key_skip true k s v (some w) d p other t = rw (other, t) refl
key_skip false k s v o d p other t = rw (other, t) refl

pub key_out :
    (b : Bool) (k s : String) (v : Value) (o : Option Value) (d : Fields) (p : List String)
    → (k == s) ≡ true
    → select_path v p ≡ none
    → after o p ≡ none
    → (b ≡ true → o ≡ none → select_key d s p ≡ none)
    → select_key (if b then keep_field k o d else field k v d) s p ≡ none
unfolding select_path
key_out true k s v none d p same h a t = t refl refl
key_out true k s v (some w) d p same h a t = rw same a
key_out false k s v o d p same h a t = rw same h

pub each_out :
    (o : Option Value) (l : Items) (p : List String)
    → after o p ≡ none
    → select_each l p ≡ nil
    → select_each (keep_item o l) p ≡ nil
unfolding select_path
each_out none l p a t = t
each_out (some w) l p a t = rw (a, t) refl

pub kept_out :
    (o : Option Value) (l : Items) (s : String) (p : List String)
    → after o (s ∷ p) ≡ none
    → select_kept l s p ≡ nil
    → select_kept (keep_item o l) s p ≡ nil
unfolding select_path
kept_out none l s p a t = t
kept_out (some w) l s p a t = rw (a, t) refl

pub or_else-none :
    (o : Option Value) (v : Value) (p : List String)
    → select_path v p ≡ none
    → after o p ≡ none
    → select_path (or_else o v) p ≡ none
or_else-none none v p h a = h
or_else-none (some w) v p h a = a
