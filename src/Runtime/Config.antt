-- ===== src/Runtime/Config.antt =====
-- Reading a node's `config`. A key that the workflow schema types as a string, such as a branch
-- target, is read as `None` where the JSON there is no string.
use workcore.Prelude.{
  ℕ, zero, suc, String, Bool, true, false, not, Option, none, some, ◌==◌, ◌^◌, if◌then◌else◌, leb,
}
use Prim.Native.Nat.{◌/◌}
use workcore.Prelude.Int.{ℤ, pos, negsuc, Float, of_int, leb_ℤ, ltb_float}
use workcore.Value.{Value, Items, nil, null, boolean, int, float, str, arr, obj, end, as_text}
use workcore.Value.Object
use workcore.Runtime.Models.{Node}
use workcore.Runtime.Env.{Result, ok, raise, Env}

-- `node.config.get(key)`
unfoldable pub config : Node → String → Option Value
config n key = Object.get key n.config

unfoldable pub text : Node → String → Option String
text n key = as_text (config n key)

-- `value is None`, for what `get` returns
abbrev pub present : Option Value → Option Value
present none = none
present (some null) = none
present (some v) = some v

-- `if text`, for an optional text
abbrev pub given : Option String → Bool
given none = false
given (some s) = not (s == "")

-- `a == b`, for optional texts
abbrev pub same_text : Option String → Option String → Bool
same_text none none = true
same_text none (some b) = false
same_text (some a) none = false
same_text (some a) (some b) = a == b

-- `iterations >= max_iterations`
unfoldable pub reaches : ℕ → Value → Result Bool
reaches n (int m) = ok (leb_ℤ m (pos n))
reaches n (boolean true) = ok (leb 1 n)
reaches n (boolean false) = ok true
reaches n (float x) = ok (not (ltb_float (of_int (pos n)) x))
reaches n _ = raise "'>=' not supported"

-- `float(timeout_s)`
unfoldable pub seconds : Env → Value → Result Float
seconds env (int m) = ok (of_int m)
seconds env (boolean true) = ok (of_int (pos 1))
seconds env (boolean false) = ok (of_int (pos 0))
seconds env (float x) = ok x
seconds env (str s) = elim (env.parse_float s) [
  | none ↦ raise "timeout_s must be a number"
  | some x ↦ ok x
]
seconds env _ = raise "timeout_s must be a number"

-- `int(x)` of a float rounds towards zero.
truncate : ℤ → ℕ → ℤ
truncate (pos n) k = pos (n / 2 ^ k)
truncate (negsuc n) k = negate (suc n / 2 ^ k)
  where
    negate : ℕ → ℤ
    negate zero = pos zero
    negate (suc m) = negsuc m

-- `int(node.config.get("max_retries", 0) or 0)`, and 0 where that raises
to_int : Env → Value → ℤ
to_int env (int m) = m
to_int env (boolean true) = pos 1
to_int env (float x) = truncate x.num x.scale
to_int env (str s) = elim (env.parse_int s) [ none ↦ pos 0 | some m ↦ m ]
to_int env _ = pos 0

unfoldable pub max_retries : Env → Node → ℤ
unfolding to_int truncate
max_retries env n = elim (config n "max_retries") [ none ↦ pos 0 | some v ↦ to_int env v ]

-- `for item in config.get(key, [])`: the items, or an exception. A dict or a text that is not
-- empty yields texts, whose `get` raises.
unfoldable pub iterate : Option Value → Result Items
iterate none = ok nil
iterate (some (arr items)) = ok items
iterate (some (obj end)) = ok nil
iterate (some (str s)) = if s == "" then ok nil else raise "'str' object has no attribute 'get'"
iterate (some _) = raise "object is not iterable"
