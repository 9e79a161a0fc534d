-- ===== src/Runtime/Template.antt =====
-- `_render_template`: the matches of `\{\{\s*(.+?)\s*\}\}`, each replaced by the text of the
-- value of its expression.
use Prim.Native.Char.{Char, code}
use Prim.Native.String.{[], ◌∷◌, ◌++◌}
use workcore.Prelude.{ℕ, zero, suc, ◌+◌, String, Option, none, some, ◌=ℕ◌, if◌then◌else◌}
use workcore.Text.{is_space, strip}
use workcore.Value.{null, str}
use workcore.Runtime.Env.{Result, ok, raise, Env, Context}

-- A match: the group, and the number of characters that the match takes from here on.
abbrev Match : Type 0
Match = Option (String × ℕ)

abbrev later : ℕ → Match → Match
later n none = none
later n (some (g, m)) = some (g, n + m)

abbrev extend : Char → Match → Match
extend c none = none
extend c (some (g, m)) = some (c ∷ g, suc m)

abbrev or_else : Match → Match → Match
or_else (some r) other = some r
or_else none other = other

closes : String → Option ℕ
closes [] = none
closes (d ∷ s) = if code d =ℕ 125 then some 2 else none

-- `\s*\}\}`: the number of characters
tail_match : String → Option ℕ
tail_match [] = none
tail_match (c ∷ s) =
    let skipped : Option ℕ = elim (tail_match s) [ none ↦ none | some n ↦ some (suc n) ] in
    if code c =ℕ 125 then closes s else if is_space c then skipped else none

ends_at : String → Char → Match
ends_at s c = elim (tail_match s) [ none ↦ none | some n ↦ some (c ∷ [], suc n) ]

-- `.+?` up to the first place where the rest matches; the dot stands for no line feed
group_match : String → Match
group_match [] = none
group_match (c ∷ s) =
    let longer = extend c (group_match s) in
    if code c =ℕ 10 then none else or_else (ends_at s c) longer

-- `\s*` takes all that it can, and gives back where the rest does not match
open_match : String → Match
open_match [] = none
open_match (c ∷ s) =
    let spaced = later 1 (open_match s) in
    if is_space c then or_else spaced (group_match (c ∷ s)) else group_match (c ∷ s)

second_brace : String → Match
second_brace [] = none
second_brace (d ∷ s) = if code d =ℕ 123 then later 1 (open_match s) else none

-- The match that begins with the character `c` before the text `s`; the count is that of `s`.
match_at : Char → String → Match
match_at c s = if code c =ℕ 123 then second_brace s else none

-- `replace`
replacement : Env → Context → String → Result String
replacement env ctx group = elim (env.eval (str (strip group)) ctx) [
  | raise e ↦ raise e
  | ok null ↦ ok ""
  | ok v ↦ ok (env.text_of v)
]

glue : Result String → Result String → Result String
glue (raise e) rest = raise e
glue (ok t) (raise e) = raise e
glue (ok t) (ok rest) = ok (t ++ rest)

-- `_TEMPLATE_RE.sub`; `skip` counts the characters of the last match that are still to come
substitute : Env → Context → ℕ → String → Result String
substitute env ctx skip [] = ok []
substitute env ctx (suc skip) (c ∷ s) = substitute env ctx skip s
substitute env ctx zero (c ∷ s) = elim (match_at c s) [
  | none ↦ glue (ok (c ∷ [])) (substitute env ctx zero s)
  | some (group, n) ↦ glue (replacement env ctx group) (substitute env ctx n s)
]

unfoldable pub render_template : Env → Context → String → Result String
unfolding substitute glue replacement match_at second_brace open_match group_match ends_at
    tail_match closes
render_template env ctx template = substitute env ctx zero template
