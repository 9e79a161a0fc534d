-- ===== src/Orchestrator/ProjectName.antt =====
-- `_derive_project_name` and `_resolve_project_name` of orchestrator_runtime/store.py. `str.title` is
-- a parameter.
use Prim.Native.Char.{Char, code}
use Prim.Native.String.{[], ◌∷◌}
use workcore.Prelude.{
  ◌+◌, String, ◌≡◌, refl, Bool, true, false, ◌&&◌, ◌||◌, Option, none, some, ◌==◌, ◌=ℕ◌, ◌<>◌, leb,
  if◌then◌else◌,
}
use workcore.Text.{is_space, strip}

-- `[_-]`
abbrev is_separator : Char → Bool
is_separator c = code c =ℕ 95 || code c =ℕ 45

drop_separators : String → String
drop_separators [] = []
drop_separators (c ∷ s) = let rest = drop_separators s in if is_separator c then rest else c ∷ s

-- `[_-]+`, and then what follows
separated : String → Option String
unfolding drop_separators
separated [] = none
separated (c ∷ s) = if is_separator c then some (drop_separators s) else none

-- A letter of a lower-case word, in either case.
abbrev same_letter : Char → Char → Bool
same_letter c d = code c =ℕ code d || (leb 65 (code c) && leb (code c) 90 && code c + 32 =ℕ code d)

-- what follows the word
after_word : String → String → Option String
after_word [] s = some s
after_word (d ∷ word) [] = none
after_word (d ∷ word) (c ∷ s) =
    let rest = after_word word s in if same_letter c d then rest else none

then_separated : Option String → Option String
unfolding separated
then_separated none = none
then_separated (some s) = separated s

abbrev or_rest : Option String → String → String
or_rest none s = s
or_rest (some t) s = t

-- `re.sub(r"^(proj|project)[_-]+", "", s, flags=re.IGNORECASE)`
unfoldable pub cut_prefix : String → String
unfolding after_word then_separated
cut_prefix s =
    or_rest (then_separated (after_word "proj" s))
      (or_rest (then_separated (after_word "project" s)) s)

-- Each run of the characters becomes one space; `inside` tells that the last one was in a run.
squeeze : (Char → Bool) → Bool → String → String
squeeze test inside [] = []
squeeze test inside (c ∷ s) =
    let skipped = squeeze test true s in
    let kept = squeeze test false s in
    if test c then (if inside then skipped else " " <> skipped) else c ∷ kept

unfoldable pub derive_project_name : (String → String) → String → String
unfolding squeeze is_space
derive_project_name title project_id =
    let normalized_id = strip project_id in
    let spaced = squeeze (λ c. is_separator c) false (cut_prefix normalized_id) in
    let base = strip (squeeze is_space false spaced) in
    if normalized_id == "" then "" else title (if base == "" then normalized_id else base)

abbrev pub nonblank : Option String → Option String
nonblank none = none
nonblank (some s) = if strip s == "" then none else some (strip s)

unfoldable pub resolve_project_name : (String → String) → String → Option String → String
resolve_project_name title project_id project_name =
    let derived = derive_project_name title project_id in
    let by_id = if derived == "" then strip project_id else derived in
    or_rest (nonblank project_name) by_id

named_by_id : derive_project_name (λ s. s) "Proj_my--shop" ≡ "my shop"
unfolding derive_project_name strip cut_prefix
named_by_id = refl
