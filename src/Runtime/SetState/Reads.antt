-- ===== src/Runtime/SetState/Reads.antt =====
-- What `_set_path` of runtime/engine.py writes, read back.
use workcore.Prelude.{String, ◌≡◌, ◌≢◌, Option, some}
use workcore.Value.{Value, Fields}
use workcore.Value.Object
use workcore.Value.Path.{get_parts, get_parts-set_parts, get-set_parts_ne}
use workcore.Text.{split_dots}
use workcore.Runtime.SetState.{set_path}

-- The value at a dotted path.
abbrev pub get_path : String → Fields → Option Value
get_path path d = let (part, rest) = split_dots path in get_parts part rest d

-- Where the write at a dotted path is made, the value is read back at the path, and every key of
-- the dict but the first part of the path keeps its value.
pub set_path-read :
    (path : String) (v : Value) (d e : Fields)
    → set_path path v d ≡ some e
    → (get_path path e ≡ some v)
      × ((k : String) → k ≢ (split_dots path).0 → Object.get k e ≡ Object.get k d)
unfolding set_path
set_path-read path v d e h =
    let (part, rest) = split_dots path in
    (get_parts-set_parts part rest v d e h, λ k ne. get-set_parts_ne k part rest v d e ne h)
