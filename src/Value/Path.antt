-- ===== src/Value/Path.antt =====
-- `_set_path` of runtime/engine.py, a write at a dotted path, and the read that it answers to.
use workcore.Prelude.{
  String, ◌≡◌, ◌≢◌, inl, inr, Option, Option-cases, none, some, List, [], ◌∷◌, arith, eq_iff,
}
use workcore.Value.{Value, Fields, obj, end}
use workcore.Value.Object.{get, put, get-put, get-put_self}

-- `current.setdefault(part, {})`; `none` where what is there is no dict, on which the next
-- `setdefault` or the final write raises
child : Option Value → Option Fields
child none = some end
child (some (obj d)) = some d
child (some _) = none

-- The loop over the parts of the path. A write into a dict that the loop reached is a write into
-- the state, so the dicts on the way are put back.
unfoldable pub set_parts : String → List String → Value → Fields → Option Fields
unfolding child
set_parts part [] v current = some (put part v current)
set_parts part (q ∷ rest) v current = elim (child (get part current)) [
  | none ↦ none
  | some d ↦ elim (set_parts q rest v d) [
    | none ↦ none
    | some d' ↦ some (put part (obj d') current)
  ]
]

-- The value at a path.
unfoldable pub get_parts : String → List String → Fields → Option Value
get_parts part [] d = get part d
get_parts part (q ∷ rest) d = elim (get part d) [ some (obj e) ↦ get_parts q rest e | _ ↦ none ]

-- What is written at a path is read back there.
pub get_parts-set_parts :
    (part : String) (rest : List String) (v : Value) (d e : Fields)
    → set_parts part rest v d ≡ some e
    → get_parts part rest e ≡ some v
unfolding set_parts get_parts
get_parts-set_parts part [] v d e h = ground (arith, get-put_self part v d)
get_parts-set_parts part (q ∷ rest) v d e h = elim (Option-cases (child (get part d))) [
  | inl bad ↦ ground arith
  | inr (g, ok) ↦ elim (Option-cases (set_parts q rest v g)) [
    | inl bad ↦ ground arith
    | inr (g', done) ↦
        ground (arith, get_parts-set_parts q rest v g g' done, get-put_self part (obj g') d)
  ]
]

-- A write leaves every other key of the dict it starts in alone.
pub get-set_parts_ne :
    (k part : String) (rest : List String) (v : Value) (d e : Fields)
    → k ≢ part
    → set_parts part rest v d ≡ some e
    → get k e ≡ get k d
unfolding set_parts
get-set_parts_ne k part [] v d e ne h = ground (arith, get-put k part v d, eq_iff part k)
get-set_parts_ne k part (q ∷ rest) v d e ne h = elim (Option-cases (child (get part d))) [
  | inl bad ↦ ground arith
  | inr (g, ok) ↦ elim (Option-cases (set_parts q rest v g)) [
    | inl bad ↦ ground arith
    | inr (g', done) ↦ ground (arith, get-put k part (obj g') d, eq_iff part k)
  ]
]
