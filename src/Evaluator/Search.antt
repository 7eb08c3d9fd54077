-- ===== src/Evaluator/Search.antt =====
-- `advance( yield )` of src/llvmsym/evaluator.h: for each thread that may run, the states that its next
-- observable step leads to, through steps that are not observable. The loop has fuel and tells whether it
-- came to its end.
use sym_divine.Base.{
  ℕ, zero, suc, Bool, true, false, ◌||◌, ◌&&◌, not, Option, some, List, [], ◌∷◌, ◌++◌,
  if◌then◌else◌, ◌>>=◌, ◌>>◌, ensure,
}
use sym_divine.Control
use sym_divine.Stores.{DataStore}
use sym_divine.Evaluator.{Program, State}
use sym_divine.Evaluator.Values.{Yield}
use sym_divine.Evaluator.Dispatch.{step}

-- What one step adds: the states that are yielded, and the stack of those to go on from.
pub record Found {ℓ} (D : Type ℓ) : Type ℓ where
  pub yielded : List (State D)
  pub to_do : List (State D)

-- `restoringYield`, for the yields of one step in order; `last_check` is set by the last one.
unfoldable pub collect {ℓ} : {D : Type ℓ} → Bool → List (Yield D) → Found D → Option (Found D)
collect last_check [] found = some found
collect last_check (y ∷ ys) found = do
  ensure (not last_check)
  let shown = record found { yielded = found.yielded ++ y.state ∷ [] }
  let pushed = record found { to_do = y.state ∷ found.to_do }
  collect y.last ys
      (if y.is_empty then found else if y.is_observable || y.state.error then shown else pushed)

-- The state after a step: every `yield` puts the old one back.
abbrev pub restored {ℓ} : {D : Type ℓ} → State D → List (Yield D) → State D → State D
restored snapshot [] left = left
restored snapshot (y ∷ ys) left = snapshot

-- What the search of one thread has: the state of the evaluator, what was yielded, and the stack.
pub record Progress {ℓ} (D : Type ℓ) : Type ℓ where
  pub state : State D
  pub found : Found D

module _ {ℓ} {D : Type ℓ} (smt : DataStore D) (program : Program) where
  -- The body of the loop for the state on top.
  unfoldable pub round : ℕ → State D → List (State D) → List (State D) → Option (Progress D)
  unfolding step collect
  round tid snapshot to_do yielded = do
    (yields, left) ← step smt program snapshot tid snapshot.error
    found ← collect false yields (record { yielded = yielded; to_do = to_do })
    some (record { state = restored snapshot yields left; found = found })

  unfoldable pub turn :
      (Progress D → Option (Progress D × Bool))
      → ℕ
      → Progress D
      → List (State D)
      → Option (Progress D × Bool)
  unfolding round
  turn rest tid p [] = some (p, true)
  turn rest tid p (top ∷ to_do) = do next ← round tid top to_do p.found.yielded; rest next

  unfoldable pub loop : ℕ → ℕ → Progress D → Option (Progress D × Bool)
  unfolding turn
  loop zero tid p = some (p, false)
  loop (suc n) tid p = turn (λ q. loop n tid q) tid p p.found.to_do

  -- The loop over the threads: the search of each starts from the state that the one before has left.
  unfoldable pub advance_threads :
      ℕ → List ℕ → State D → List (State D) → Option (List (State D) × Bool)
  unfolding loop
  advance_threads n [] s yielded = some (yielded, true)
  advance_threads n (tid ∷ tids) s yielded = do
    (p, ended) ←
        loop n tid (record { state = s; found = record { yielded = yielded; to_do = s ∷ [] } })
    (all, all_ended) ← advance_threads n tids p.state p.found.yielded
    some (all, ended && all_ended)

  unfoldable pub advance : ℕ → State D → Option (List (State D) × Bool)
  unfolding advance_threads
  advance n s = advance_threads n (Control.get_allowed_threads s.control) s []
