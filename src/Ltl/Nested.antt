-- ===== src/Ltl/Nested.antt =====
-- The nested depth-first search of src/llvmsym/ltl.tpp. The evaluator is a parameter: `guarded` gives the
-- states that are not empty among those that `eval.advance` yields from a state after `pushPropGuard` of
-- a guard. The Buechi automaton is a graph, with the accepting vertices marked; `ba_state` reads its state
-- from the user part of a state and `with_ba_state` writes it there. The loop has fuel and tells whether
-- it came to its end; the inner search has the fuel that is always enough for it. The output is left out.
use sym_divine.Base.{
  ℕ, zero, suc, ◌+◌, ◌*◌, ◌%◌, Bool, true, false, ◌&&◌, ◌||◌, Option, none, some, List, [], ◌∷◌,
  ◌++◌, ◌==◌, if◌then◌else◌, ltb, leb, length, back?, pop_back, replicate, ◌>>=◌, ◌>>◌, ensure,
}
use sym_divine.Datastore.Words.{u64}
use sym_divine.Formula.{Formula}
use sym_divine.Database.{
  Database, State, StateId, id_eq, insert_check, insert, get_state, empty_database,
}
use sym_divine.Graph.{
  Vertex, exists, update, add_vertex, add_successors, get_successors, get_successors_edges,
  get_vertex_info,
}
use sym_divine.Ltl.{
  VertexColor, white, grey, black, VertexInfo, StateGraph, with_info, outer_as, reset_dfs,
  run_inner_dfs,
}
use sym_divine.Ltl.Weight.{weight}

pub record Nested {ℓ κ} (E : Type ℓ) (S : Type κ) : Type (ℓ ⊔ κ) where
  pub knowns : Database E S
  pub graph : StateGraph StateId
  pub to_process : List (List StateId)
  pub accepting_found : Bool
  pub depth_bound_reached : Bool
  pub depth_bound : ℕ

-- The default info.
abbrev pub no_info : VertexInfo
no_info = record { outer_color = white; inner_color = white; depth = 0 }

-- `max_depth` is `none` for −1. Whether the bound may grow, and how far.
abbrev pub may_grow : Option ℕ → ℕ → Bool
may_grow none bound = true
may_grow (some max_depth) bound = ltb bound max_depth

abbrev pub grown_bound : Option ℕ → ℕ → ℕ
grown_bound none bound = bound * 2 % u64
grown_bound (some max_depth) bound =
    if ltb max_depth (bound * 2 % u64) then max_depth else bound * 2 % u64

module _ {ℓ κ} {E : Type ℓ} {S : Type κ} (same : E → E → Bool) (hit : S → S → Bool)
    (guarded : State E S → Formula → List (State E S)) (ba_state : State E S → ℕ)
    (with_ba_state : State E S → ℕ → State E S) (ba : List (ℕ × Vertex ℕ Bool Formula)) where
  -- The callback of `eval.advance` on each state.
  unfoldable pub store_all :
      Database E S → ℕ → List (State E S) → Option (Database E S × List StateId)
  store_all db q [] = some (db, [])
  store_all db q (st ∷ rest) = do
    (db', new, id) ← insert_check same hit db (with_ba_state st q)
    (db'', ids) ← store_all db' q rest
    some (db'', id ∷ ids)

  -- The product with the edges of the automaton.
  unfoldable pub product :
      Database E S → State E S → List ℕ → List Formula → Option (Database E S × List StateId)
  unfolding store_all
  product db state [] aps = some (db, [])
  product db state (q ∷ qs) [] = none
  product db state (q ∷ qs) (ap ∷ aps) = do
    (db', ids) ← store_all db q (guarded state ap)
    (db'', rest) ← product db' state qs aps
    some (db'', ids ++ rest)

  -- `generate_successors`
  unfoldable pub generate_successors : Database E S → StateId → Option (Database E S × List StateId)
  unfolding product
  generate_successors db vertex = do
    state ← get_state same hit db vertex
    ba_succ ← get_successors ◌==◌ ba (ba_state state)
    ba_pc ← get_successors_edges ◌==◌ ba (ba_state state)
    product db state ba_succ ba_pc

  -- The successors of a vertex that is entered: where none are known, they are generated.
  unfoldable pub enter :
      Nested E S → StateId → ℕ → List StateId → Option (Nested E S × List StateId)
  unfolding generate_successors
  enter s vertex depth (id ∷ ids) = some (s, id ∷ ids)
  enter s vertex depth [] = do
    (knowns, successors) ← generate_successors s.knowns vertex
    let info : VertexInfo = record { outer_color = white; inner_color = white; depth = depth + 1 }
    (graph, found) ←
        add_successors id_eq no_info tt s.graph vertex successors
          (replicate (length successors) info) (replicate (length successors) tt)
    some (record s { knowns = knowns; graph = graph }, successors)

  -- The end of a vertex: the inner search, if the state of the automaton is accepting.
  unfoldable pub finish : Nested E S → StateId → Bool → Option (Nested E S)
  finish s vertex false = some s
  finish s vertex true = do
    (inner, ended) ← run_inner_dfs id_eq (weight s.graph + 3) s.graph vertex
    some (record s {
      graph = inner.graph;
      accepting_found = s.accepting_found || inner.accepting_found;
    })

  -- The three branches on the colour of the last vertex of the top vector.
  unfoldable pub visit :
      Nested E S
      → List StateId
      → List (List StateId)
      → StateId
      → VertexInfo
      → VertexColor
      → Option (Nested E S)
  unfolding enter finish
  visit s top below vertex info white = do
    known ← get_successors id_eq s.graph vertex
    (t, successors) ← enter s vertex info.depth known
    some (record t {
      graph = update id_eq t.graph vertex (with_info (outer_as grey));
      to_process = successors ∷ top ∷ below;
    })
  visit s top below vertex info grey = do
    b ← get_state same hit s.knowns vertex
    accepting ← get_vertex_info ◌==◌ ba (ba_state b)
    finish
        (record s {
          graph = update id_eq s.graph vertex (with_info (outer_as black));
          to_process = pop_back top ∷ below;
        })
        vertex accepting
  visit s top below vertex info black = some (record s { to_process = pop_back top ∷ below })

  module _ (depth_bounded : Bool) (max_depth : Option ℕ) (start_vertex : StateId) where
    -- A vector without elements is popped; when none is left and the bound was met, the search
    -- starts again with a larger bound.
    abbrev pub next_vector : Nested E S → List (List StateId) → Nested E S
    next_vector s (top ∷ below) = record s { to_process = top ∷ below }
    next_vector s [] =
        if depth_bounded && s.depth_bound_reached && may_grow max_depth s.depth_bound
        then record s {
          graph = reset_dfs s.graph;
          depth_bound = grown_bound max_depth s.depth_bound;
          depth_bound_reached = false;
          to_process = (start_vertex ∷ []) ∷ [];
        }
        else record s { to_process = [] }

    -- The body of the loop, for a stack with a top.
    unfoldable pub step : Nested E S → List StateId → List (List StateId) → Option (Nested E S)
    unfolding visit
    step s top below = elim (back? top) [
      | none ↦ some (next_vector s below)
      | some vertex ↦ get_vertex_info id_eq s.graph vertex >>= λ info.
          if depth_bounded && leb s.depth_bound info.depth
          then some (record s { to_process = below; depth_bound_reached = true })
          else visit s top below vertex info info.outer_color
    ]

    -- The condition of the loop, and its body followed by the rest of the loop.
    unfoldable pub turn :
        (Nested E S → Option (Nested E S × Bool))
        → Nested E S
        → Bool
        → List (List StateId)
        → Option (Nested E S × Bool)
    unfolding step
    turn rest s true to_process = some (s, true)
    turn rest s false [] = some (s, true)
    turn rest s false (top ∷ below) = do t ← step s top below; rest t

    -- The loop, and whether it came to its end within the fuel.
    unfoldable pub loop : ℕ → Nested E S → Option (Nested E S × Bool)
    unfolding turn
    loop zero s = some (s, false)
    loop (suc n) s = turn (λ t. loop n t) s s.accepting_found s.to_process

    -- `run_nested_dfs`
    unfoldable pub run_nested_dfs :
        ℕ → Database E S → StateGraph StateId → Option (Nested E S × Bool)
    unfolding loop
    run_nested_dfs n knowns graph = do
      ensure (exists id_eq graph start_vertex)
      loop n (record {
        knowns = knowns;
        graph = graph;
        to_process = (start_vertex ∷ []) ∷ [];
        accepting_found = false;
        depth_bound_reached = false;
        depth_bound = 32;
      })

  -- The initial state of the automaton: the only successor of its initial vertex.
  abbrev pub only_successor : List ℕ → Option ℕ
  only_successor (q ∷ []) = some q
  only_successor qs = none

  -- `run`
  unfoldable pub run : ℕ → Bool → Option ℕ → ℕ → State E S → Option (Nested E S × Bool)
  unfolding run_nested_dfs
  run n depth_bounded max_depth ba_init initial = do
    ba_succ ← get_successors ◌==◌ ba ba_init
    q ← only_successor ba_succ
    (knowns, id) ← insert same hit empty_database (with_ba_state initial q)
    run_nested_dfs depth_bounded max_depth id n knowns (add_vertex id_eq [] id no_info).0
