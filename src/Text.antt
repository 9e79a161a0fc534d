-- ===== src/Text.antt =====
-- The string methods that the source calls: `strip`, `lower`, `split(".")` and membership in a
-- set of literals.
use Prim.Native.Char.{Char, code}
use Prim.Native.String.{[], ◌∷◌}
use workcore.Prelude.{
  ℕ, ◌+◌, String, ◌≡◌, refl, Bool, true, false, ◌&&◌, ◌||◌, List, ◌==◌, ◌=ℕ◌, leb, if◌then◌else◌,
}

-- the characters for which `str.isspace` holds
is_space_code : ℕ → Bool
is_space_code c =
    (leb 9 c && leb c 13)
    || (leb 28 c && leb c 32)
    || c =ℕ 133
    || c =ℕ 160
    || c =ℕ 5760
    || (leb 8192 c && leb c 8202)
    || c =ℕ 8232
    || c =ℕ 8233
    || c =ℕ 8239
    || c =ℕ 8287
    || c =ℕ 12288

unfoldable pub is_space : Char → Bool
unfolding is_space_code
is_space c = is_space_code (code c)

lstrip : String → String
lstrip [] = []
lstrip (c ∷ s) = let rest = lstrip s in if is_space c then rest else c ∷ s

rstrip : String → String
rstrip [] = []
rstrip (c ∷ s) = let rest = rstrip s in if is_space c && rest == "" then [] else c ∷ rest

-- `s.strip()`
unfoldable pub strip : String → String
unfolding lstrip rstrip is_space
strip s = lstrip (rstrip s)

-- `s.split(".")`, which has one part at least: the first one and the others
prepend : Char → String × List String → String × List String
prepend c (first, rest) = (c ∷ first, rest)

next_part : String × List String → String × List String
next_part (first, rest) = ([], List.◌∷◌ first rest)

unfoldable pub split_dots : String → String × List String
unfolding prepend next_part
split_dots [] = ([], List.[])
split_dots (c ∷ s) =
    let rest = split_dots s in if code c =ℕ 46 then next_part rest else prepend c rest

-- `s.lower() == t` for a text `t` of ASCII characters: besides the ASCII capitals only the Kelvin
-- sign has a lower case that is ASCII.
lower_code : ℕ → ℕ
lower_code c = if leb 65 c && leb c 90 then c + 32 else if c =ℕ 8490 then 107 else c

unfoldable pub lower_is : String → String → Bool
unfolding lower_code
lower_is [] [] = true
lower_is [] (d ∷ t) = false
lower_is (c ∷ s) [] = false
lower_is (c ∷ s) (d ∷ t) = lower_code (code c) =ℕ code d && lower_is s t

-- `s.lower() in {t, …}`
abbrev pub lower_in : String → List String → Bool
lower_in s List.[] = false
lower_in s (List.◌∷◌ t ts) = lower_is s t || lower_in s ts

-- `s.startswith(t)`
starts_with : String → String → Bool
starts_with [] s = true
starts_with (d ∷ t) [] = false
starts_with (d ∷ t) (c ∷ s) = code c =ℕ code d && starts_with t s

-- `t in s`
unfoldable pub includes : String → String → Bool
unfolding starts_with
includes t [] = t == ""
includes t (c ∷ s) = starts_with t (c ∷ s) || includes t s

-- `s.split()`: the word at the start, and the others after it
new_word : String × List String → List String
new_word (first, rest) = if first == "" then rest else List.◌∷◌ first rest

words_from : String → String × List String
unfolding new_word is_space
words_from [] = ([], List.[])
words_from (c ∷ s) =
    let rest = words_from s in if is_space c then ([], new_word rest) else prepend c rest

unfoldable pub words : String → List String
unfolding words_from new_word prepend
words s = new_word (words_from s)

strip_both_ends : strip "  a b " ≡ "a b"
unfolding strip
strip_both_ends = refl

split_three : split_dots "a.b.c" ≡ ("a", List.◌∷◌ "b" (List.◌∷◌ "c" List.[]))
unfolding split_dots
split_three = refl

lower_yes : lower_in "YeS" (List.◌∷◌ "on" (List.◌∷◌ "yes" List.[])) ≡ true
unfolding lower_is
lower_yes = refl

two_words : words "  a bc " ≡ List.◌∷◌ "a" (List.◌∷◌ "bc" List.[])
unfolding words
two_words = refl

inside : includes "bc" "abcd" ≡ true
unfolding includes
inside = refl
