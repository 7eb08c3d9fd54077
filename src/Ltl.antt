-- ===== src/Ltl.antt =====
-- The search for accepting cycles of src/llvmsym/ltl.tpp over the graph of src/toolkit/graph.h: the colours
-- of the vertices and the inner search. `none` is an exception of the graph or the database.
pub mod Cycles
pub mod Weight
pub mod Branches
pub mod InnerSearch
pub mod Nested
pub mod Resets
pub mod Verdict
mod Tests
use sym_divine.Base.{
  ℕ, zero, suc, Bool, true, false, ◌||◌, not, Option, none, some, List, [], ◌∷◌, if◌then◌else◌,
  back?, pop_back, ◌>>=◌, ◌>>◌, ensure,
}
use sym_divine.Graph
use sym_divine.Graph.{Vertex, exists, update, get_successors, get_successors_info, get_vertex_info}

-- `VertexColor`
pub data VertexColor : Type 0 where
  white grey black : VertexColor

-- `VertexInfo`
pub record VertexInfo : Type 0 where
  pub outer_color : VertexColor
  pub inner_color : VertexColor
  pub depth : ℕ

-- The graph of the search: its edges have no info.
abbrev pub StateGraph {ℓ} : Type ℓ → Type ℓ
StateGraph I = List (I × Vertex I VertexInfo (Unit {0}))

-- A change of the info of a vertex.
abbrev pub with_info {ℓ} :
    {I : Type ℓ}
    → (VertexInfo → VertexInfo)
    → Vertex I VertexInfo (Unit {0})
    → Vertex I VertexInfo (Unit {0})
with_info change v = record v { vertex_info = change v.vertex_info }

-- `reset`
abbrev pub reset : VertexInfo → VertexInfo
reset info = record info { outer_color = white; inner_color = white }

-- `reset_dfs`
abbrev pub reset_dfs {ℓ} : {I : Type ℓ} → StateGraph I → StateGraph I
reset_dfs [] = []
reset_dfs ((id, v) ∷ g) = (id, with_info reset v) ∷ reset_dfs g

abbrev pub inner_as : VertexColor → VertexInfo → VertexInfo
inner_as color info = record info { inner_color = color }

abbrev pub outer_as : VertexColor → VertexInfo → VertexInfo
outer_as color info = record info { outer_color = color }

-- The inner search: the graph, the stack with its top first, each vector in the order of the source, and
-- whether a cycle was found.
pub record Inner {ℓ} (I : Type ℓ) : Type ℓ where
  pub graph : StateGraph I
  pub to_process : List (List I)
  pub accepting_found : Bool

module _ {ℓ} {I : Type ℓ} (eq : I → I → Bool) where
  -- Whether the loop over the successors meets the vertex.
  abbrev pub meets : I → List I → Bool
  meets start [] = false
  meets start (s ∷ succ) = let later = meets start succ in if eq start s then true else later

  -- The three branches on the colour of the last vertex of the top vector.
  unfoldable pub visit :
      I → StateGraph I → List I → List (List I) → I → VertexColor → Option (Inner I)
  visit start g top below vertex white = do
    succ ← get_successors eq g vertex
    succ_info ← get_successors_info eq g vertex
    some (record {
      graph = update eq g vertex (with_info (inner_as grey));
      to_process = succ ∷ top ∷ below;
      accepting_found = meets start succ;
    })
  visit start g top below vertex grey = some (record {
    graph = update eq g vertex (with_info (inner_as black));
    to_process = pop_back top ∷ below;
    accepting_found = false;
  })
  visit start g top below vertex black =
      some (record { graph = g; to_process = pop_back top ∷ below; accepting_found = false })

  -- The body of the loop, for a stack with a top.
  unfoldable pub inner_step : I → StateGraph I → List I → List (List I) → Option (Inner I)
  unfolding visit
  inner_step start g top below = elim (back? top) [
    | none ↦ some (record { graph = g; to_process = below; accepting_found = false })
    | some vertex ↦
        get_vertex_info eq g vertex >>= λ info. visit start g top below vertex info.inner_color
  ]

  -- The condition of the loop, and its body followed by the rest of the loop.
  pub inner_turn :
      (Inner I → Option (Inner I × Bool))
      → I
      → StateGraph I
      → List (List I)
      → Bool
      → Option (Inner I × Bool)
  unfolding inner_step
  inner_turn rest start g to_process true =
      some (record { graph = g; to_process = to_process; accepting_found = true }, true)
  inner_turn rest start g [] false =
      some (record { graph = g; to_process = []; accepting_found = false }, true)
  inner_turn rest start g (top ∷ below) false = do t ← inner_step start g top below; rest t

  -- The loop, and whether it came to its end within the fuel.
  unfoldable pub inner_loop : ℕ → I → Inner I → Option (Inner I × Bool)
  unfolding inner_turn
  inner_loop zero start s = some (s, false)
  inner_loop (suc n) start s =
      inner_turn (λ t. inner_loop n start t) start s.graph s.to_process s.accepting_found

  -- `run_inner_dfs`
  unfoldable pub run_inner_dfs : ℕ → StateGraph I → I → Option (Inner I × Bool)
  unfolding inner_loop
  run_inner_dfs n g start = do
    ensure (exists eq g start)
    inner_loop n start
        (record { graph = g; to_process = (start ∷ []) ∷ []; accepting_found = false })
