-- ===== src/Router/CustomActions.antt =====
-- project_router/custom_actions.py. The source walks over a set of four keys, in an order that
-- Python does not fix: the order is a parameter. So is `float` of a text of digits with a point.
use Prim.Native.Char.{Char, code}
use Prim.Native.String.{[], ◌∷◌, count}
use workcore.Prelude.{
  ℕ, zero, suc, ◌+◌, ◌-◌, ◌*◌, String, Bool, true, false, not, ◌&&◌, ◌||◌, Option, none, some, List,
  ◌==◌, ◌=ℕ◌, leb, ltb, contains, if◌then◌else◌,
}
use workcore.Prelude.Int.{ℤ, pos, negsuc, Float}
use workcore.Text.{strip, lower_is, lower_in, split_dots}
use workcore.Value.{
  Value, null, boolean, int, float, str, arr, obj, Fields, Items, nil, cons, end, field,
}
use workcore.Value.Object
use workcore.Runtime.Projection.{normalize_projection_paths}

abbrev pub wrapper_keys : List String
wrapper_keys = List.◌∷◌ "input" (List.◌∷◌ "form" (List.◌∷◌ "form_data" (List.◌∷◌ "fields" List.[])))

abbrev pub system_keys : List String
system_keys = List.◌∷◌ "action_type" (
    List.◌∷◌ "type" (
      List.◌∷◌ "run_id" (
        List.◌∷◌ "interrupt_id"
          (List.◌∷◌ "files" (List.◌∷◌ "idempotency_key" (List.◌∷◌ "action_id" List.[]))))))

abbrev pub is_digit : Char → Bool
is_digit c = leb 48 (code c) && leb (code c) 57

unfoldable pub all_digits : String → Bool
all_digits [] = true
all_digits (c ∷ s) = is_digit c && all_digits s

-- `0|[1-9][0-9]*`
abbrev pub is_natural : String → Bool
is_natural [] = false
is_natural (c ∷ s) = is_digit c && all_digits s && (not (code c =ℕ 48) || s == "")

abbrev pub unsigned : String → String
unsigned [] = []
unsigned (c ∷ s) = if code c =ℕ 45 then s else c ∷ s

-- `_INT_RE.match`
abbrev pub is_int_text : String → Bool
is_int_text s = is_natural (unsigned s)

abbrev pub is_fraction : String × List String → Bool
is_fraction (whole, List.[]) = false
is_fraction (whole, List.◌∷◌ digits List.[]) =
    is_int_text whole && all_digits digits && not (digits == "")
is_fraction (whole, List.◌∷◌ digits (List.◌∷◌ more rest)) = false

-- `_FLOAT_RE.match`
abbrev pub is_float_text : String → Bool
is_float_text s = is_fraction (split_dots s)

unfoldable pub digits_value : ℕ → String → ℕ
digits_value n [] = n
digits_value n (c ∷ s) = digits_value (n * 10 + (code c - 48)) s

abbrev pub negated : ℕ → ℤ
negated zero = pos 0
negated (suc n) = negsuc n

-- `int` of a text that the pattern matches
unfoldable pub int_of_text : String → ℤ
int_of_text [] = pos 0
int_of_text (c ∷ s) =
    if code c =ℕ 45 then negated (digits_value 0 s) else pos (digits_value 0 (c ∷ s))

-- `int` raises where a text has more than 4300 digits.
abbrev pub is_too_long : String → Bool
is_too_long s = ltb 4300 (count (unsigned s))

module _ (to_float : String → Float) where
  -- `_coerce_scalar`
  unfoldable pub coerce_scalar : String → Value
  coerce_scalar value =
      let trimmed = strip value in
      if lower_is trimmed "true"
      then boolean true
      else if lower_is trimmed "false"
      then boolean false
      else if lower_in trimmed (List.◌∷◌ "null" (List.◌∷◌ "none" List.[]))
      then null
      else if is_int_text trimmed
      then if is_too_long trimmed then str value else int (int_of_text trimmed)
      else if is_float_text trimmed
      then float (to_float trimmed)
      else str value

  unfoldable mutual
    -- `_normalize_value`
    pub normalize_value : Value → Value
    normalize_value (obj d) = obj (normalize_fields d)
    normalize_value (arr vs) = arr (normalize_each vs)
    normalize_value (str s) = coerce_scalar s
    normalize_value null = null
    normalize_value (boolean b) = boolean b
    normalize_value (int n) = int n
    normalize_value (float x) = float x

    pub normalize_fields : Fields → Fields
    normalize_fields end = end
    normalize_fields (field k v d) = field k (normalize_value v) (normalize_fields d)

    pub normalize_each : Items → Items
    normalize_each nil = nil
    normalize_each (cons v vs) = cons (normalize_value v) (normalize_each vs)

  abbrev pub put_plain : String → Value → Fields → Fields
  put_plain key item found =
      Object.put key (if key == "documents" then item else normalize_value item) found

  -- `_normalize_mapping`, onto what has been found
  unfoldable pub normalize_mapping : Fields → Fields → Fields
  normalize_mapping end found = found
  normalize_mapping (field key (obj d) rest) found =
      let inner = normalize_mapping d end in
      normalize_mapping rest (
        if contains key wrapper_keys
        then Object.update found inner
        else put_plain key (obj d) found)
  normalize_mapping (field key item rest) found = normalize_mapping rest (put_plain key item found)

  -- The fields that the wrappers hold.
  unfoldable pub extract : List String → Fields → Fields → Fields
  extract List.[] payload found = found
  extract (List.◌∷◌ key keys) payload found = elim (Object.get key payload) [
    | some (obj d) ↦ extract keys payload (Object.update found (normalize_mapping d end))
    | _ ↦ extract keys payload found
  ]

  -- `setdefault` of the other fields
  unfoldable pub add_missing : Fields → Fields → Fields
  add_missing end found = found
  add_missing (field key value rest) found = add_missing rest (
      if contains key system_keys || contains key wrapper_keys
      then found
      else elim (Object.get key found) [
        | some v ↦ found
        | none ↦ Object.put key (normalize_value value) found
      ])

  unfoldable pub plain_fields : Fields → Fields
  plain_fields end = end
  plain_fields (field key value rest) =
      let others = plain_fields rest in
      if contains key system_keys then others else field key (normalize_value value) others

  abbrev pub texts_value : List String → Items
  texts_value List.[] = nil
  texts_value (List.◌∷◌ s ss) = cons (str s) (texts_value ss)

  abbrev pub put_paths : String → Option (List String) → Fields → Option Fields
  put_paths key none d = none
  put_paths key (some paths) d = some (Object.put key (arr (texts_value paths)) d)

  abbrev pub control : String → Option Value → Fields → Option Fields
  control key none d = some d
  control key (some null) d = some d
  control key (some v) d = put_paths key (normalize_projection_paths (some v)) d

  abbrev pub then_control : String → Option Fields → Option Fields
  then_control key none = none
  then_control key (some d) = control key (Object.get key d) d

  -- `_normalize_projection_controls`; `none` is the `ValueError`
  unfoldable pub normalize_projection_controls : Fields → Option Fields
  normalize_projection_controls d =
      then_control "output_include_paths" (then_control "state_exclude_paths" (some d))

  -- `normalize_orchestrator_custom_action_payload`
  unfoldable pub normalize_orchestrator_custom_action_payload : List String → Fields → Option Fields
  normalize_orchestrator_custom_action_payload order payload =
      let extracted = extract order payload end in
      normalize_projection_controls
        (if Object.is_empty extracted then plain_fields payload else add_missing payload extracted)
