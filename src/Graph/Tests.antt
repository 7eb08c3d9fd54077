-- ===== src/Graph/Tests.antt =====
-- A graph of two vertices, and one of them expanded.
use sym_divine.Base.{ℕ, ◌==◌, ==_self, ◌≡◌, refl, some, [], ◌∷◌, ◌++◌, List, Returns}
use sym_divine.Graph.{Vertex, add_successors, get_successors}
use sym_divine.Graph.Closed.{IsClosed}
use sym_divine.Graph.Successors.{add_successors-IsClosed}

abbrev expanded : Vertex ℕ ℕ ℕ
expanded = record { vertex_info = 0; neighbors = 2 ∷ []; edge_info = 0 ∷ [] }

abbrev two_vertices : List (ℕ × Vertex ℕ ℕ ℕ)
two_vertices = (1, expanded) ∷ (2, record { vertex_info = 0; neighbors = []; edge_info = [] }) ∷ []

two_vertices-IsClosed : IsClosed (λ a b. a == b) two_vertices
two_vertices-IsClosed = record {
  sound = (
    (((record { vertex_info = 0; neighbors = []; edge_info = [] }, refl), tt), refl),
    ((tt, refl), tt),
  );
}

add_successors-IsClosed_example :
    Returns (add_successors (λ a b. a == b) 0 0 two_vertices 1 (3 ∷ 1 ∷ []) [] []) λ r.
      IsClosed (λ a b. a == b) r.0
      × (get_successors (λ a b. a == b) r.0 1 ≡ some ((2 ∷ []) ++ 3 ∷ 1 ∷ []))
add_successors-IsClosed_example =
    add_successors-IsClosed (λ a b. a == b) ==_self 0 0 two_vertices 1 (3 ∷ 1 ∷ []) [] [] expanded
      two_vertices-IsClosed refl refl
