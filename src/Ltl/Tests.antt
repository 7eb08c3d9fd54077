-- ===== src/Ltl/Tests.antt =====
-- The searches of src/llvmsym/ltl.tpp, the inner one on two vertices that lead to each other.
use sym_divine.Base.{◌≡◌, refl, ℕ, true, [], ◌∷◌, Returns, ◌==◌, arith, Bool}
use sym_divine.Base.{false, none, List}
use sym_divine.Formula.{Formula}
use sym_divine.Database.{State}
use sym_divine.Graph.{Vertex}
use sym_divine.Database.{insert, get_state, insert_check}
use sym_divine.Graph.{
  get_successors, exists, add_vertex, get_vertex_info, get_successors_edges, add_successors,
  get_successors_info,
}
use sym_divine.Ltl.Nested.{run}
use sym_divine.Ltl.Verdict.{Violation, run-Violation}
use sym_divine.Graph.Closed.{IsClosed}
use sym_divine.Ltl.{white, VertexInfo, StateGraph, run_inner_dfs}
use sym_divine.Ltl.InnerSearch.{Ended, run_inner_dfs-ends}

abbrev new_info : VertexInfo
new_info = record { outer_color = white; inner_color = white; depth = 0 }

abbrev two_vertices : StateGraph ℕ
two_vertices =
    (1, record { vertex_info = new_info; neighbors = 2 ∷ []; edge_info = tt ∷ [] })
    ∷ (2, record { vertex_info = new_info; neighbors = 1 ∷ []; edge_info = tt ∷ [] })
    ∷ []

abbrev equal : ℕ → ℕ → Bool
equal a b = a == b

equal_sound : (a b : ℕ) → equal a b ≡ true → a ≡ b
equal_sound a b e = ground arith

two_vertices-IsClosed : IsClosed equal two_vertices
two_vertices-IsClosed = record { sound = ((((_, refl), tt), refl), ((((_, refl), tt), refl), tt)) }

run_inner_dfs-ends_example :
    Returns (run_inner_dfs equal 9 two_vertices 1) (Ended equal equal_sound two_vertices 1)
run_inner_dfs-ends_example =
    run_inner_dfs-ends equal equal_sound two_vertices 1 9 two_vertices-IsClosed (_, refl)
      (omega arith)

-- One state that leads to itself, and an automaton that accepts it.
abbrev automaton : List (ℕ × Vertex ℕ Bool Formula)
automaton =
    (0, record { vertex_info = false; neighbors = 1 ∷ []; edge_info = [] ∷ [] })
    ∷ (1, record { vertex_info = true; neighbors = 1 ∷ []; edge_info = [] ∷ [] })
    ∷ []

abbrev stay : State ℕ ℕ → Formula → List (State ℕ ℕ)
stay st ap = st ∷ []

abbrev state_of : State ℕ ℕ → ℕ
state_of st = st.expl

abbrev put_state : State ℕ ℕ → ℕ → State ℕ ℕ
put_state st q = record { expl = q; symb = st.symb }

abbrev initial : State ℕ ℕ
initial = record { expl = 0; symb = 7 }

found_cycle :
    Returns
      (run equal equal stay state_of put_state automaton 20 true none 0 initial)
      λ r. r.0.accepting_found ≡ true
unfolding run get_successors insert exists add_vertex get_vertex_info get_state get_successors_edges
    insert_check add_successors run_inner_dfs get_successors_info
found_cycle = (_, refl, refl)

run-Violation_example : Violation equal equal stay state_of put_state automaton found_cycle.0.0
run-Violation_example =
    run-Violation equal equal stay state_of put_state automaton 20 true none 0 initial
      found_cycle.0.0 found_cycle.0.1 found_cycle.1 found_cycle.2
