-- ===== src/Reachability/Tests.antt =====
-- The search of a program that makes one step and stops.
use sym_divine.Base.{
  ℕ, ◌≡◌, refl, Bool, true, false, List, [], ◌∷◌, ◌==◌, ==_self, if◌then◌else◌, some, subst,
  Returns, arith,
}
use sym_divine.Database.{State, get_state, insert_check, insert}
use sym_divine.Graph.{add_successors, add_vertex}
use sym_divine.Reachability.{Search, run, start, loop, turn, expand, yield_all, yield_state}
use sym_divine.Reachability.Invariant.{IsSearch, IsCovered}
use sym_divine.Reachability.Safety.{Nothing}
use sym_divine.Reachability.Verdict.{
  here, initially, Yields, Stands, Simulates, run-safe, run-IsSearch,
}

abbrev equal : ℕ → ℕ → Bool
equal a b = a == b

abbrev one_step : State ℕ ℕ → List (State ℕ ℕ × Bool)
one_step x = if x.expl == 0 then (record { expl = 1; symb = x.symb }, false) ∷ [] else []

abbrev initial : State ℕ ℕ
initial = record { expl = 0; symb = 4 }

abbrev stopped : State ℕ ℕ
stopped = record { expl = 1; symb = 4 }

-- Both states are stored, and the first one is expanded.
abbrev two_turns : Search ℕ ℕ
two_turns = record {
  knowns = record {
    items =
        record { explicit_id = 1; exp_state = 0; sym_container = 4 ∷ [] }
        ∷ record { explicit_id = 2; exp_state = 1; sym_container = 4 ∷ [] }
        ∷ [];
    state2item_table = (0, 0) ∷ (1, 1) ∷ [];
    id2item_table =
        (record { exp_id = 1; sym_id = 1 }, 0) ∷ (record { exp_id = 2; sym_id = 1 }, 1) ∷ [];
    id_counter = 2;
  };
  graph =
      (
        record { exp_id = 1; sym_id = 1 },
        record {
          vertex_info = tt;
          neighbors = record { exp_id = 2; sym_id = 1 } ∷ [];
          edge_info = tt ∷ [];
        },
      )
      ∷ (
        record { exp_id = 2; sym_id = 1 },
        record { vertex_info = tt; neighbors = []; edge_info = [] },
      )
      ∷ [];
  to_do = [];
  error_found = false;
}

search_ends : run equal equal one_step 3 initial ≡ some (two_turns, true)
unfolding run start loop turn expand yield_all yield_state get_state insert_check insert
    add_successors add_vertex
search_ends = refl

equal_trans : (a b c : ℕ) → equal a b ≡ true → equal b c ≡ true → equal a c ≡ true
equal_trans a b c e f = ground arith

Stands-same : (x y : State ℕ ℕ) → Stands equal equal ==_self ==_self one_step x y → x ≡ y
Stands-same x y e = ground (arith, e.0, e.1)

one_step-simulates : Simulates equal equal ==_self ==_self one_step
one_step-simulates x y z bad stands yields = (
  z,
  subst (λ v. Yields equal equal ==_self ==_self one_step (one_step v) z bad)
      (Stands-same x y stands) yields,
  (==_self z.expl, ==_self z.symb),
)

run-safe_example : false ≡ false
run-safe_example =
    run-safe equal equal ==_self ==_self one_step equal_trans equal_trans one_step-simulates 3
      initial initial stopped false two_turns search_ends refl initially here

run-IsSearch_example : Returns (run equal equal one_step 3 initial) λ r.
    IsSearch equal equal ==_self ==_self one_step r.0 Nothing
    × IsCovered equal equal ==_self ==_self one_step r.0.knowns initial
run-IsSearch_example = run-IsSearch equal equal ==_self ==_self one_step 3 initial
