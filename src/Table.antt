-- ===== src/Table.antt =====
-- Python's `dict` with tuples of strings as keys, as the association list of its items in insertion
-- order. A tuple is the list of its components.
pub mod Laws
use workcore.Prelude.{
  String, Bool, true, false, ◌&&◌, Option, none, some, List, [], ◌∷◌, map, ◌==◌, if◌then◌else◌,
}

abbrev pub Table {ℓ} : Type ℓ → Type ℓ
Table V = List (List String × V)

abbrev pub same_key : List String → List String → Bool
same_key [] [] = true
same_key [] (y ∷ ys) = false
same_key (x ∷ xs) [] = false
same_key (x ∷ xs) (y ∷ ys) = x == y && same_key xs ys

module _ {ℓ} {V : Type ℓ} where
  -- `t.get(k)`
  unfoldable pub find : List String → Table V → Option V
  find k [] = none
  find k ((j, v) ∷ t) = if same_key j k then some v else find k t

  -- `t[k] = v`
  unfoldable pub insert : List String → V → Table V → Table V
  insert k v [] = (k, v) ∷ []
  insert k v ((j, w) ∷ t) = if same_key j k then (j, v) ∷ t else (j, w) ∷ insert k v t

  -- `{k: v for k, v in t.items() if p(k, v)}`
  unfoldable pub filter_rows : (List String → V → Bool) → Table V → Table V
  filter_rows p [] = []
  filter_rows p ((j, w) ∷ t) = let rest = filter_rows p t in if p j w then (j, w) ∷ rest else rest

  -- `t.pop(k, None)`
  unfoldable pub erase : List String → Table V → Table V
  erase k [] = []
  erase k ((j, w) ∷ t) = let rest = erase k t in if same_key j k then rest else (j, w) ∷ rest

  -- `list(t.values())`
  unfoldable pub rows : Table V → List V
  rows = map (λ (_, v). v)
