-- ===== src/Runtime/Projection.antt =====
-- runtime/projection.py: what of a run's state and outputs is sent out.
-- The model copies values, so `deepcopy` is the identity.
pub mod Parts
pub mod Excluded
use Prim.Native.Char.{Char, code}
use workcore.Prelude.{
  ℕ, String, Bool, true, false, not, ◌&&◌, ◌||◌, Option, none, some, List, [], ◌∷◌, ◌++◌, ◌==◌,
  ◌=ℕ◌, leb, contains, if◌then◌else◌,
}
use workcore.Text.{strip, split_dots}
use workcore.Value.{Value, null, str, arr, obj, Items, nil, cons, Fields, end, field}
use workcore.Value.Object

-- `[A-Za-z0-9_-]`
segment_code : ℕ → Bool
segment_code c =
    (leb 65 c && leb c 90)
    || (leb 97 c && leb c 122)
    || (leb 48 c && leb c 57)
    || c =ℕ 95
    || c =ℕ 45

-- `_SEGMENT_RE.fullmatch`, for a segment that is not empty
segment_chars : String → Bool
unfolding segment_code
segment_chars Prim.Native.String.[] = true
segment_chars (Prim.Native.String.◌∷◌ c s) = segment_code (code c) && segment_chars s

valid_segment : String → Bool
unfolding segment_chars
valid_segment s = not (s == "") && (s == "*" || segment_chars s)

valid_segments : List String → Bool
unfolding valid_segment
valid_segments [] = true
valid_segments (s ∷ rest) = valid_segment s && valid_segments rest

abbrev pub segments : String → List String
segments path = let (first, rest) = split_dots path in first ∷ rest

-- `is_valid_projection_path`
unfoldable pub is_valid_projection_path : String → Bool
unfolding valid_segments
is_valid_projection_path path =
    let candidate = strip path in not (candidate == "") && valid_segments (segments candidate)

-- The loop of `normalize_projection_paths`; `none` is the `ValueError`.
unfoldable pub normalize_items : Items → List String → Option (List String)
normalize_items nil seen = some seen
normalize_items (cons (str item) rest) seen =
    let candidate = strip item in
    let next =
      normalize_items rest (if contains candidate seen then seen else seen ++ (candidate ∷ [])) in
    if is_valid_projection_path candidate then next else none
normalize_items (cons _ rest) seen = none

unfoldable pub normalize_projection_paths : Option Value → Option (List String)
normalize_projection_paths none = some []
normalize_projection_paths (some null) = some []
normalize_projection_paths (some (arr items)) = normalize_items items []
normalize_projection_paths (some _) = none

-- `_safe_paths`
unfoldable pub safe_paths : Option Value → List String
safe_paths value = elim (normalize_projection_paths value) [ none ↦ [] | some paths ↦ paths ]

unfoldable pub projection_paths_from_metadata : Fields → List String × List String
projection_paths_from_metadata metadata = (
  safe_paths (Object.get "state_exclude_paths" metadata),
  safe_paths (Object.get "output_include_paths" metadata),
)

-- What is kept of an item, unless it is deleted.
abbrev pub keep_field : String → Option Value → Fields → Fields
keep_field k none d = d
keep_field k (some v) d = field k v d

abbrev pub keep_item : Option Value → Items → Items
keep_item none l = l
keep_item (some v) l = cons v l

abbrev pub or_else : Option Value → Value → Value
or_else none v = v
or_else (some w) v = w

-- `_exclude_path`; `none` is `_DELETE`
unfoldable mutual
  pub exclude_path : Value → List String → Option Value
  exclude_path v [] = none
  exclude_path (obj d) (s ∷ rest) = some (obj (exclude_fields d s rest))
  exclude_path (arr l) (s ∷ rest) =
      let each = exclude_each l rest in
      let kept = exclude_kept l s rest in some (arr (if s == "*" then each else kept))
  exclude_path v (s ∷ rest) = some v

  pub exclude_fields : Fields → String → List String → Fields
  exclude_fields end s rest = end
  exclude_fields (field k v d) s rest =
      let others = exclude_fields d s rest in
      let item = exclude_path v rest in
      if s == "*" || k == s then keep_field k item others else field k v others

  pub exclude_each : Items → List String → Items
  exclude_each nil rest = nil
  exclude_each (cons v l) rest = keep_item (exclude_path v rest) (exclude_each l rest)

  pub exclude_kept : Items → String → List String → Items
  exclude_kept nil s rest = nil
  exclude_kept (cons v l) s rest =
      cons (or_else (exclude_path v (s ∷ rest)) v) (exclude_kept l s rest)

-- The loop of `apply_state_exclude_paths`.
unfoldable pub apply_state_exclude_paths : Value → List String → Value
apply_state_exclude_paths state [] = state
apply_state_exclude_paths state (path ∷ rest) =
    let skipped = apply_state_exclude_paths state rest in
    let excluded : Value = elim (exclude_path state (segments path)) [
      | none ↦ obj end
      | some projected ↦ apply_state_exclude_paths projected rest
    ] in
    if is_valid_projection_path path then excluded else skipped

abbrev pub under : String → Option Value → Option Value
under s none = none
under s (some v) = some (obj (field s v end))

abbrev pub some_fields : Fields → Option Value
some_fields end = none
some_fields (field k v d) = some (obj (field k v d))

abbrev pub some_items : Items → Option Value
some_items nil = none
some_items (cons v l) = some (arr (cons v l))

-- `_select_path`; `none` is `_MISSING`
unfoldable mutual
  pub select_path : Value → List String → Option Value
  select_path v [] = some v
  select_path (obj d) (s ∷ rest) =
      let all = select_fields d rest in
      let one = select_key d s rest in if s == "*" then some_fields all else under s one
  select_path (arr l) (s ∷ rest) =
      let each = select_each l rest in
      let kept = select_kept l s rest in if s == "*" then some_items each else some_items kept
  select_path v (s ∷ rest) = none

  pub select_fields : Fields → List String → Fields
  select_fields end rest = end
  select_fields (field k v d) rest = keep_field k (select_path v rest) (select_fields d rest)

  -- the selection in `value[segment]`
  pub select_key : Fields → String → List String → Option Value
  select_key end s rest = none
  select_key (field k v d) s rest =
      let here = select_path v rest in
      let later = select_key d s rest in if k == s then here else later

  pub select_each : Items → List String → Items
  select_each nil rest = nil
  select_each (cons v l) rest = keep_item (select_path v rest) (select_each l rest)

  pub select_kept : Items → String → List String → Items
  select_kept nil s rest = nil
  select_kept (cons v l) s rest = keep_item (select_path v (s ∷ rest)) (select_kept l s rest)

-- `_merge` of two values; the case of a missing left one is `merge_onto`
unfoldable mutual
  pub merge : Value → Value → Value
  merge (obj d) (obj e) = obj (merge_fields d e)
  merge (arr l) (arr m) = arr (merge_items l m)
  merge left right = right

  pub merge_fields : Fields → Fields → Fields
  merge_fields merged end = merged
  merge_fields merged (field k v e) =
      merge_fields
        (elim (Object.get k merged) [
          | none ↦ Object.put k v merged
          | some w ↦ Object.put k (merge w v) merged
        ])
        e

  pub merge_items : Items → Items → Items
  merge_items nil m = m
  merge_items (cons v l) nil = cons v l
  merge_items (cons v l) (cons w m) = cons (merge v w) (merge_items l m)

unfoldable pub merge_onto : Option Value → Value → Value
merge_onto none right = right
merge_onto (some left) right = merge left right

-- The loop of `apply_output_include_paths`.
unfoldable pub merge_paths : Value → List String → Option Value → Option Value
merge_paths outputs [] merged = merged
merge_paths outputs (path ∷ rest) merged =
    let skipped = merge_paths outputs rest merged in
    let selected : Option Value = elim (select_path outputs (segments path)) [
      | none ↦ merge_paths outputs rest merged
      | some v ↦ merge_paths outputs rest (some (merge_onto merged v))
    ] in
    if is_valid_projection_path path then selected else skipped

abbrev or_nothing : Option Value → Value → Value
or_nothing (some v) outputs = v
or_nothing none (obj d) = obj end
or_nothing none _ = null

-- `apply_output_include_paths`, where the outputs are there
unfoldable pub apply_output_include_paths : Value → List String → Value
apply_output_include_paths null paths = null
apply_output_include_paths outputs [] = outputs
apply_output_include_paths outputs (path ∷ rest) =
    or_nothing (merge_paths outputs (path ∷ rest) none) outputs

unfoldable pub project_run_payload_for_transport : Value → Value → Fields → Value × Value
project_run_payload_for_transport state outputs metadata =
    let (state_paths, output_paths) = projection_paths_from_metadata metadata in
    (apply_state_exclude_paths state state_paths, apply_output_include_paths outputs output_paths)
