-- ===== src/Graph.antt =====
-- `Graph` of src/toolkit/graph.h: the explored state space as adjacency lists. The ids with their
-- equality, and the infos of vertices and edges with their default values, are parameters. `none` is a
-- `GraphException` or a failed `assert`. `add_edge_checked`, which no caller instantiates, does not compile
-- and is not modelled; neither is the output of `to_dot`.
pub mod Closed
pub mod Successors
mod Tests
use sym_divine.Base.{
  ℕ, Bool, true, false, ◌&&◌, ◌||◌, Option, none, some, List, [], ◌∷◌, ◌++◌, ◌==◌, if◌then◌else◌,
  map, length, replicate, ◌>>=◌, ◌>>◌, ensure, push_back,
}
use sym_divine.Database.{find, insert_pair}

pub record Vertex {ℓ κ υ} (I : Type ℓ) (V : Type κ) (E : Type υ) : Type (ℓ ⊔ κ ⊔ υ) where
  pub vertex_info : V
  pub neighbors : List I
  pub edge_info : List E

abbrev pub with_default {ℓ κ} : {A : Type ℓ} {V : Type κ} → V → List A → List (A × V)
with_default info [] = []
with_default info (a ∷ xs) = (a, info) ∷ with_default info xs

abbrev pub zipped {ℓ κ} : {A : Type ℓ} {V : Type κ} → List A → List V → List (A × V)
zipped (a ∷ xs) (info ∷ infos) = (a, info) ∷ zipped xs infos
zipped xs infos = []

abbrev pub is_empty {ℓ} : {A : Type ℓ} → List A → Bool
is_empty [] = true
is_empty (a ∷ xs) = false

-- The pairs that the loops of `add_successors` go over, and the edge infos that it appends.
abbrev pub pairs {ℓ κ} : {I : Type ℓ} {V : Type κ} → V → List I → List V → List (I × V)
pairs no_info succ v_info =
    if is_empty v_info then with_default no_info succ else zipped succ v_info

abbrev pub edge_infos {ℓ κ} : {I : Type ℓ} {E : Type κ} → E → List I → List E → List E
edge_infos no_edge succ e_info = if is_empty e_info then replicate (length succ) no_edge else e_info

-- The sizes that the `assert` of `add_successors` lets pass.
abbrev pub sizes_fit {ℓ κ υ} :
    {I : Type ℓ} {V : Type κ} {E : Type υ} → List I → List V → List E → Bool
sizes_fit succ v_info e_info =
    is_empty v_info && is_empty e_info
    || length succ == length v_info && length succ == length e_info

module _ {ℓ κ υ} {I : Type ℓ} {V : Type κ} {E : Type υ} (eq : I → I → Bool) where
  unfoldable pub exists : List (I × Vertex I V E) → I → Bool
  exists g id = elim (find eq g id) [ none ↦ false | some v ↦ true ]

  -- Whether the vertex is new, with the graph: a vertex that is there stays as it is.
  unfoldable pub add_vertex : List (I × Vertex I V E) → I → V → List (I × Vertex I V E) × Bool
  add_vertex g id info = elim (find eq g id) [
    | none ↦
        (insert_pair eq g id (record { vertex_info = info; neighbors = []; edge_info = [] }), true)
    | some v ↦ (g, false)
  ]

  abbrev pub erase_key : List (I × Vertex I V E) → I → List (I × Vertex I V E)
  erase_key [] id = []
  erase_key ((k, v) ∷ g) id =
      let rest : List (I × Vertex I V E) = erase_key g id in if eq id k then g else (k, v) ∷ rest

  unfoldable pub remove_vertex : List (I × Vertex I V E) → I → List (I × Vertex I V E) × Bool
  remove_vertex g id = elim (find eq g id) [ none ↦ (g, false) | some v ↦ (erase_key g id, true) ]

  -- A change of the vertex through a reference to it.
  abbrev pub update :
      List (I × Vertex I V E) → I → (Vertex I V E → Vertex I V E) → List (I × Vertex I V E)
  update [] id f = []
  update ((k, v) ∷ g) id f =
      let rest : List (I × Vertex I V E) = update g id f in
      if eq id k then (k, f v) ∷ g else (k, v) ∷ rest

  abbrev pub with_edges : List I → List E → Vertex I V E → Vertex I V E
  with_edges succ infos v = record v {
    neighbors = v.neighbors ++ succ;
    edge_info = v.edge_info ++ infos;
  }

  unfoldable pub add_edge : List (I × Vertex I V E) → I → I → E → Option (List (I × Vertex I V E))
  add_edge g source target info = do
    v ← find eq g source
    some (update g source (with_edges (target ∷ []) (info ∷ [])))

  -- The loops over the successors: with default infos, or with the given ones.
  abbrev pub add_vertices : List (I × Vertex I V E) → List (I × V) → List (I × Vertex I V E)
  add_vertices g [] = g
  add_vertices g ((id, info) ∷ succ) = add_vertices (add_vertex g id info).0 succ

  unfoldable pub add_successors :
      V
      → E
      → List (I × Vertex I V E)
      → I
      → List I
      → List V
      → List E
      → Option (List (I × Vertex I V E) × Bool)
  add_successors no_info no_edge g source succ v_info e_info = do
    ensure (sizes_fit succ v_info e_info)
    let grown : List (I × Vertex I V E) = add_vertices g (pairs no_info succ v_info)
    some (elim (find eq g source) [
      | none ↦ (g, false)
      | some v ↦ (update grown source (with_edges succ (edge_infos no_edge succ e_info)), true)
    ])

  unfoldable pub get_successors : List (I × Vertex I V E) → I → Option (List I)
  get_successors g id = do v ← find eq g id; some v.neighbors

  unfoldable pub get_successors_edges : List (I × Vertex I V E) → I → Option (List E)
  get_successors_edges g id = do v ← find eq g id; some v.edge_info

  unfoldable pub get_vertex_info : List (I × Vertex I V E) → I → Option V
  get_vertex_info g id = do v ← find eq g id; some v.vertex_info

  abbrev pub infos_of : List (I × Vertex I V E) → List I → Option (List V)
  unfolding get_vertex_info
  infos_of g [] = some []
  infos_of g (s ∷ succ) = do
    info ← get_vertex_info g s
    infos ← infos_of g succ
    some (info ∷ infos)

  unfoldable pub get_successors_info : List (I × Vertex I V E) → I → Option (List V)
  unfolding get_vertex_info
  get_successors_info g id = do succ ← get_successors g id; infos_of g succ
