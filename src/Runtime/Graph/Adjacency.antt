-- ===== src/Runtime/Graph/Adjacency.antt =====
-- The adjacency dicts list the edges, in their order, and what a set of nodes still has to push.
use mathlib.Core.List.{foldl}
use workcore.Prelude.{
  ℕ, suc, ◌+◌, String, ◌≡◌, refl, sym, ap, ◌∙◌, Bool, true, false, List, [], ◌∷◌, ◌++◌, arith,
  eq_iff, ◌==◌, contains, length, if◌then◌else◌,
}
use mathlib.Core.List.{append_assoc, append-nil}
use workcore.Dict.{Dict, get, get_or}
use workcore.Dict.Laws.{get-put}
use workcore.Runtime.Models.{Edge, Workflow}
use workcore.Runtime.Graph.{append_at, build_outgoing, build_incoming, sources, targets}

-- The targets of the edges from `k`, and the sources of the edges to it.
abbrev pub out_edges : String → List Edge → List String
out_edges k [] = []
out_edges k (e ∷ es) = let rest = out_edges k es in if e.source == k then e.target ∷ rest else rest

abbrev pub in_edges : String → List Edge → List String
in_edges k [] = []
in_edges k (e ∷ es) = let rest = in_edges k es in if e.target == k then e.source ∷ rest else rest

get_or-append_at :
    (j k v : String) (d : Dict (List String))
    → get_or j [] (append_at k v d) ≡ (if k == j then get_or j [] d ++ (v ∷ []) else get_or j [] d)
unfolding append_at
get_or-append_at j k v d = ground (arith, get-put j k (get_or k [] d ++ (v ∷ [])) d, eq_iff k j)

one_more :
    (b : Bool) (o r : List String) (t : String)
    → (if b then o ++ (t ∷ []) else o) ++ r ≡ o ++ (if b then t ∷ r else r)
one_more true o r t = append_assoc o (t ∷ []) r
one_more false o r t = refl

outgoing_onto :
    (k : String) (es : List Edge) (d : Dict (List String))
    → get_or k [] (foldl (λ d e. append_at e.source e.target d) d es)
      ≡ get_or k [] d ++ out_edges k es
outgoing_onto k [] d = sym (append-nil _)
outgoing_onto k (e ∷ es) d =
    outgoing_onto k es (append_at e.source e.target d)
    ∙ (ap (λ l. l ++ out_edges k es) (get_or-append_at k e.source e.target d)
        ∙ one_more (e.source == k) (get_or k [] d) (out_edges k es) e.target)

incoming_onto :
    (k : String) (es : List Edge) (d : Dict (List String))
    → get_or k [] (foldl (λ d e. append_at e.target e.source d) d es)
      ≡ get_or k [] d ++ in_edges k es
incoming_onto k [] d = sym (append-nil _)
incoming_onto k (e ∷ es) d =
    incoming_onto k es (append_at e.target e.source d)
    ∙ (ap (λ l. l ++ in_edges k es) (get_or-append_at k e.target e.source d)
        ∙ one_more (e.target == k) (get_or k [] d) (in_edges k es) e.source)

-- The engine's neighbours of a node are those of the edges at it, in the order of the edges.
pub adjacency :
    (w : Workflow) (k : String)
    → (targets w k ≡ out_edges k w.edges) × (sources w k ≡ in_edges k w.edges)
unfolding targets sources build_outgoing build_incoming get
adjacency w k = (outgoing_onto k w.edges [], incoming_onto k w.edges [])

-- The edges whose source, or whose target, is not among the given nodes.
abbrev pub unspent : (Edge → String) → List Edge → List String → ℕ
unspent f [] ns = 0
unspent f (e ∷ es) ns = let rest = unspent f es ns in if contains (f e) ns then rest else suc rest

spend_out :
    (es : List Edge) (c : String) (ns : List String)
    → contains c ns ≡ false
    → unspent (λ e. e.source) es (c ∷ ns) + length (out_edges c es) ≡ unspent (λ e. e.source) es ns
spend_out [] c ns h = omega arith
spend_out (e ∷ es) c ns h = ground (arith, spend_out es c ns, eq_iff c e.source, eq_iff e.source c)

pub spend_in :
    (es : List Edge) (c : String) (ns : List String)
    → contains c ns ≡ false
    → unspent (λ e. e.target) es (c ∷ ns) + length (in_edges c es) ≡ unspent (λ e. e.target) es ns
spend_in [] c ns h = omega arith
spend_in (e ∷ es) c ns h = ground (arith, spend_in es c ns, eq_iff c e.target, eq_iff e.target c)

pub unspent-nil : (f : Edge → String) (es : List Edge) → unspent f es [] ≡ length es
unspent-nil f [] = refl
unspent-nil f (e ∷ es) = ap suc (unspent-nil f es)

pub spend_targets :
    (w : Workflow) (c : String) (ns : List String)
    → contains c ns ≡ false
    → unspent (λ e. e.source) w.edges (c ∷ ns) + length (targets w c)
      ≡ unspent (λ e. e.source) w.edges ns
spend_targets w c ns h = rw (adjacency w c).0 (spend_out w.edges c ns h)

pub spend_sources :
    (w : Workflow) (c : String) (ns : List String)
    → contains c ns ≡ false
    → unspent (λ e. e.target) w.edges (c ∷ ns) + length (sources w c)
      ≡ unspent (λ e. e.target) w.edges ns
spend_sources w c ns h = rw (adjacency w c).1 (spend_in w.edges c ns h)
