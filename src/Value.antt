-- ===== src/Value.antt =====
-- JSON values, which the source handles as `Any`, and JSON objects, its `Dict[str, Any]`.
-- A value is a tree: that two names hold one mutable object is not represented.
pub mod Object
pub mod Path
use workcore.Prelude.{ℕ, zero, String, Bool, true, false, not, none, some, Option, ◌==◌}
use workcore.Prelude.Int.{ℤ, pos, negsuc, Float}

mutual
  pub data Value : Type 0 where
    null : Value
    boolean : Bool → Value
    int : ℤ → Value
    float : Float → Value
    str : String → Value
    arr : Items → Value
    obj : Fields → Value

  pub data Fields : Type 0 where
    end : Fields
    field : String → Value → Fields → Fields

  pub data Items : Type 0 where
    nil : Items
    cons : Value → Items → Items
    -- in insertion order

nonzero : ℤ → Bool
nonzero (pos zero) = false
nonzero _ = true

-- `bool(value)`
unfoldable pub truthy : Value → Bool
unfolding nonzero
truthy null = false
truthy (boolean b) = b
truthy (int n) = nonzero n
truthy (float x) = nonzero x.num
truthy (str s) = not (s == "")
truthy (arr nil) = false
truthy (arr (cons v vs)) = true
truthy (obj end) = false
truthy (obj (field k v fs)) = true

-- What a key that the schema types as a string holds; `None` where the key is missing.
unfoldable pub as_text : Option Value → Option String
as_text none = none
as_text (some (str s)) = some s
as_text (some _) = none
