-- ===== src/Value/Object.antt =====
-- JSON objects as dicts: reading, writing, removing, and updating by another object.
use workcore.Prelude.{
  String, ◌≡◌, refl, Bool, true, false, Option, none, some, arith, ◌==◌, eq_iff, eq_refl,
  if◌then◌else◌,
}
use workcore.Value.{Value, Fields, end, field}

-- `d.get(k)`
unfoldable pub get : String → Fields → Option Value
get k end = none
get k (field j v d) = if j == k then some v else get k d

-- `d[k] = v`
unfoldable pub put : String → Value → Fields → Fields
put k v end = field k v end
put k v (field j w d) = if j == k then field j v d else field j w (put k v d)

-- `d.pop(k, None)`
unfoldable pub pop : String → Fields → Fields
pop k end = end
pop k (field j w d) = let rest = pop k d in if j == k then rest else field j w rest

-- `{**d, **e}`, and `d.update(e)`
unfoldable pub update : Fields → Fields → Fields
update d end = d
update d (field k v e) = update (put k v d) e

-- `not d`
abbrev pub is_empty : Fields → Bool
is_empty end = true
is_empty (field k v d) = false

pub get-put :
    (j k : String) (v : Value) (d : Fields)
    → get j (put k v d) ≡ (if k == j then some v else get j d)
unfolding get put
get-put j k v end = refl
get-put j k v (field i w d) = ground (arith, eq_iff k j, eq_iff i k, eq_iff i j, get-put j k v d)

pub get-put_self : (k : String) (v : Value) (d : Fields) → get k (put k v d) ≡ some v
get-put_self k v d = simp (get-put, eq_refl)

pub get-pop : (j k : String) (d : Fields) → get j (pop k d) ≡ (if k == j then none else get j d)
unfolding get pop
get-pop j k end = ground arith
get-pop j k (field i w d) = ground (arith, eq_iff k j, eq_iff i k, eq_iff i j, get-pop j k d)

-- No key is listed twice.
abbrev pub NodupKeys : Fields → Type 0
NodupKeys end = Unit
NodupKeys (field k v d) = (get k d ≡ none) × NodupKeys d

-- The value of the later object wins, key by key.
pub get-update :
    (j : String) (d e : Fields)
    → NodupKeys e
    → get j (update d e) ≡ elim (get j e) [ none ↦ get j d | some v ↦ some v ]
unfolding get update
get-update j d end u = refl
get-update j d (field k v e) (fresh, u) =
    ground (arith, get-update j (put k v d) e u, get-put j k v d, eq_iff k j)
