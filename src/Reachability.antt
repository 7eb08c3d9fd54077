-- ===== src/Reachability.antt =====
-- The breadth-first search of src/llvmsym/reachability.tpp. The evaluator is a parameter: `advance` gives
-- the states that `eval.advance` yields from a state, in order, each with the test
-- `is_error() && !is_empty()`. The state space may be infinite, so that the loop has fuel, and tells
-- whether it came to its end. `none` is an exception of the database or the graph; the output is not
-- modelled.
pub mod Invariant
pub mod Safety
pub mod Verdict
mod Tests
use sym_divine.Base.{
  ℕ, zero, suc, Bool, true, false, ◌||◌, Option, none, some, List, [], ◌∷◌, if◌then◌else◌,
  push_back, ◌>>=◌,
}
use sym_divine.Database.{
  Database, State, StateId, id_eq, insert_check, insert, get_state, empty_database,
}
use sym_divine.Graph.{Vertex, add_vertex, add_successors}

pub record Search {ℓ κ} (E : Type ℓ) (S : Type κ) : Type (ℓ ⊔ κ) where
  pub knowns : Database E S
  pub graph : List (StateId × Vertex StateId (Unit {0}) (Unit {0}))
  pub to_do : List StateId
  pub error_found : Bool

module _ {ℓ κ} {E : Type ℓ} {S : Type κ} (same : E → E → Bool) (hit : S → S → Bool)
    (advance : State E S → List (State E S × Bool)) where
  -- What the search does with one state that the evaluator yields.
  unfoldable pub yield_state : Search E S → State E S → Bool → Option (Search E S × StateId)
  yield_state s st bad = do
    (knowns, new, id) ← insert_check same hit s.knowns st
    some (
      record s {
        knowns = knowns;
        to_do = if new then push_back s.to_do id else s.to_do;
        error_found = s.error_found || bad;
      },
      id,
    )

  unfoldable pub yield_all :
      Search E S → List (State E S × Bool) → Option (Search E S × List StateId)
  unfolding yield_state
  yield_all s [] = some (s, [])
  yield_all s ((st, bad) ∷ rest) = do
    (t, id) ← yield_state s st bad
    (u, ids) ← yield_all t rest
    some (u, id ∷ ids)

  -- The body of the loop for the vertex taken from the queue.
  unfoldable pub expand : Search E S → StateId → Option (Search E S)
  unfolding yield_all
  expand s vertex = do
    b ← get_state same hit s.knowns vertex
    (t, successors) ← yield_all s (advance b)
    (graph, found) ← add_successors id_eq tt tt t.graph vertex successors [] []
    some (record t { graph = graph })

  -- The condition of the loop, and its body followed by the rest of the loop.
  pub turn :
      (Search E S → Option (Search E S × Bool))
      → Search E S
      → Bool
      → List StateId
      → Option (Search E S × Bool)
  unfolding expand
  turn rest s true to_do = some (s, true)
  turn rest s false [] = some (s, true)
  turn rest s false (vertex ∷ to_do) = do t ← expand (record s { to_do = to_do }) vertex; rest t

  -- The loop, and whether it came to its end within the fuel.
  unfoldable pub loop : ℕ → Search E S → Option (Search E S × Bool)
  unfolding turn
  loop zero s = some (s, false)
  loop (suc n) s = turn (λ t. loop n t) s s.error_found s.to_do

  -- The search before its loop: the initial state is stored and queued.
  unfoldable pub start : State E S → Option (Search E S)
  start initial = do
    (knowns, id) ← insert same hit empty_database initial
    some (record {
      knowns = knowns;
      graph = (add_vertex id_eq [] id tt).0;
      to_do = id ∷ [];
      error_found = false;
    })

  -- `run`: the final search, and whether the loop came to its end.
  unfoldable pub run : ℕ → State E S → Option (Search E S × Bool)
  run n initial = do s ← start initial; loop n s
