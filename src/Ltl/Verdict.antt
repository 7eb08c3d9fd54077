-- ===== src/Ltl/Verdict.antt =====
-- What the search of src/llvmsym/ltl.tpp finds is a cycle through an accepting state.
use sym_divine.Base.{
  if◌then◌else◌, pop_back, ensure, ℕ, zero, suc, ◌+◌, ◌≡◌, refl, sym, ◌∙◌, ap, Bool, true, false,
  ◌&&◌, ◌||◌, Option, some, List, [], ◌∷◌, ◌==◌, leb, length, back?, replicate, >>=-eq-some, arith,
  Bool-cases, Option-cases, inl, inr, some_inj, subst,
}
use sym_divine.Formula.{Formula}
use sym_divine.Database.{insert, empty_database, Database, State, StateId, id_eq, get_state}
use sym_divine.Database.Tables.{id_eq_iff, id_eq_self, taken, miss}
use sym_divine.Graph.{update, add_vertex, get_successors, exists, Vertex, get_vertex_info}
use sym_divine.Graph.Closed.{Exists, IsClosed, find-update, add_vertex-IsClosed}
use sym_divine.Graph.Successors.{add_successors-IsClosed}
use sym_divine.Ltl.{VertexColor, white, grey, black, VertexInfo, with_info, outer_as, reset_dfs}
use sym_divine.Ltl.Cycles.{Leads, Leads-Same, with_info-IsClosed}
use sym_divine.Ltl.Weight.{weight}
use sym_divine.Ltl.Resets.{replicate-fits, reset_dfs-IsClosed, info-Exists}
use sym_divine.Ltl.Branches.{false-true}
use sym_divine.Ltl.InnerSearch.{run_inner_dfs-ends}
use sym_divine.Ltl.Nested.{
  grown_bound, generate_successors, only_successor, Nested, no_info, may_grow, enter, finish, visit,
  next_vector, step, turn, loop, run_nested_dfs, run,
}

or_right : (a b : Bool) → a ≡ false → (a || b) ≡ true → b ≡ true
or_right true b e h = cc
or_right false b e h = h

module _ {ℓ κ} {E : Type ℓ} {S : Type κ} (same : E → E → Bool) (hit : S → S → Bool)
    (guarded : State E S → Formula → List (State E S)) (ba_state : State E S → ℕ)
    (with_ba_state : State E S → ℕ → State E S) (ba : List (ℕ × Vertex ℕ Bool Formula)) where
  -- A stored state, accepting in the automaton, from which a way of the graph leads to itself.
  abbrev pub Violation : Nested E S → Type (ℓ ⊔ κ)
  Violation t =
      (v : StateId) × (b : State E S) × ((get_state same hit t.knowns v ≡ some b)
        × (get_vertex_info ◌==◌ ba (ba_state b) ≡ some true)
        × Leads id_eq t.graph v v)

  -- What holds after each part of the search.
  abbrev After : Nested E S → Type (ℓ ⊔ κ)
  After t = IsClosed id_eq t.graph × (t.accepting_found ≡ true → Violation t)

  not_found : (t : Nested E S) → IsClosed id_eq t.graph → t.accepting_found ≡ false → After t
  not_found t closed nothing = (closed, λ e. absurd (false-true (sym nothing ∙ e)))

  finish_lem :
      (s t : Nested E S) (v : StateId) (b : State E S) (accepting : Bool)
      → get_state same hit s.knowns v ≡ some b
      → get_vertex_info ◌==◌ ba (ba_state b) ≡ some accepting
      → s.accepting_found ≡ false
      → IsClosed id_eq s.graph
      → Exists id_eq s.graph v
      → finish same hit guarded ba_state with_ba_state ba s v accepting ≡ some t
      → After t
  unfolding finish
  finish_lem s t v b false stored marked nothing closed there e =
      subst After (some_inj e) (not_found s closed nothing)
  finish_lem s t v b true stored marked nothing closed there e =
      let (r, runs, done) =
        run_inner_dfs-ends id_eq id_eq_iff s.graph v (weight s.graph + 3) closed there
          (omega arith) in
      let (ended, same_edges, outer, closed', cycle) = done in
      let lead : r.0.accepting_found ≡ true → Leads id_eq r.0.graph v v =
        λ found. Leads-Same id_eq s.graph r.0.graph same_edges (cycle found) in
      subst After (some_inj (rw runs at e)) (
        closed',
        λ found. (
          v,
          b,
          (stored, marked, lead (or_right s.accepting_found r.0.accepting_found nothing found)),
        ),
      )

  enter_lem :
      (s t : Nested E S) (v : StateId) (depth : ℕ) (known ids : List StateId)
      → s.accepting_found ≡ false
      → IsClosed id_eq s.graph
      → Exists id_eq s.graph v
      → enter same hit guarded ba_state with_ba_state ba s v depth known ≡ some (t, ids)
      → IsClosed id_eq t.graph × (t.accepting_found ≡ false)
  unfolding enter
  enter_lem s t v depth (id ∷ known) ids nothing closed there e =
      subst (λ (u : Nested E S). IsClosed id_eq u.graph × (u.accepting_found ≡ false))
        (ap (λ (r : Nested E S × List StateId). r.0) (some_inj e)) (closed, nothing)
  enter_lem s t v depth [] ids nothing closed there e =
      let ((knowns, successors), generated, e') =
        >>=-eq-some (generate_successors same hit guarded ba_state with_ba_state ba s.knowns v) _
          e in
      let info : VertexInfo = record {
        outer_color = white;
        inner_color = white;
        depth = depth + 1;
      } in
      let (r, runs, done) =
        add_successors-IsClosed id_eq id_eq_self no_info tt s.graph v successors
          (replicate (length successors) info) (replicate (length successors) tt) there.0 closed
          (replicate-fits successors info tt) there.1 in
      subst (λ (u : Nested E S). IsClosed id_eq u.graph × (u.accepting_found ≡ false))
        (ap (λ (r : Nested E S × List StateId). r.0) (some_inj (rw runs at e'))) (done.0, nothing)

  visit_lem :
      (s t : Nested E S) (top : List StateId) (below : List (List StateId)) (v : StateId)
      (info : VertexInfo) (color : VertexColor)
      → s.accepting_found ≡ false
      → IsClosed id_eq s.graph
      → Exists id_eq s.graph v
      → visit same hit guarded ba_state with_ba_state ba s top below v info color ≡ some t
      → After t
  unfolding visit
  visit_lem s t top below v info white nothing closed there e =
      let (known, reads, e') = >>=-eq-some (get_successors id_eq s.graph v) _ e in
      let ((u, ids), entered, e'') =
        >>=-eq-some (enter same hit guarded ba_state with_ba_state ba s v info.depth known) _ e' in
      let (closed', nothing') = enter_lem s u v info.depth known ids nothing closed there entered in
      subst After (some_inj e'') (
        not_found
          (record u {
            graph = update id_eq u.graph v (with_info (outer_as grey));
            to_process = ids ∷ top ∷ below;
          })
          (with_info-IsClosed id_eq u.graph v (outer_as grey) closed') nothing')
  visit_lem s t top below v info grey nothing closed there e =
      let (b, stored, e') = >>=-eq-some (get_state same hit s.knowns v) _ e in
      let (accepting, marked, e'') = >>=-eq-some (get_vertex_info ◌==◌ ba (ba_state b)) _ e' in
      finish_lem
        (record s {
          graph = update id_eq s.graph v (with_info (outer_as black));
          to_process = pop_back top ∷ below;
        })
        t v b accepting stored marked nothing
        (with_info-IsClosed id_eq s.graph v (outer_as black) closed)
        (find-update id_eq s.graph v v (with_info (outer_as black)) there.0 there.1) e''
  visit_lem s t top below v info black nothing closed there e =
      subst After (some_inj e)
        (not_found (record s { to_process = pop_back top ∷ below }) closed nothing)

  module _ (depth_bounded : Bool) (max_depth : Option ℕ) (start_vertex : StateId) where
    next_vector_lem :
        (s : Nested E S) (below : List (List StateId))
        → s.accepting_found ≡ false
        → IsClosed id_eq s.graph
        → After (
            next_vector same hit guarded ba_state with_ba_state ba depth_bounded max_depth
              start_vertex s below)
    next_vector_lem s (top ∷ below) nothing closed =
        not_found (record s { to_process = top ∷ below }) closed nothing
    next_vector_lem s [] nothing closed =
        let again : Nested E S = record s {
          graph = reset_dfs s.graph;
          depth_bound = grown_bound max_depth s.depth_bound;
          depth_bound_reached = false;
          to_process = (start_vertex ∷ []) ∷ [];
        } in
        let over : Nested E S = record s { to_process = [] } in
        choice (depth_bounded && s.depth_bound_reached && may_grow max_depth s.depth_bound) again
          over (not_found again (reset_dfs-IsClosed id_eq s.graph closed) nothing)
          (not_found over closed nothing)
      where
        choice : (b : Bool) (t u : Nested E S) → After t → After u → After (if b then t else u)
        choice true t u x y = x
        choice false t u x y = y

    step_lem :
        (s t : Nested E S) (top : List StateId) (below : List (List StateId))
        → s.accepting_found ≡ false
        → IsClosed id_eq s.graph
        → step same hit guarded ba_state with_ba_state ba depth_bounded max_depth start_vertex s top
            below
          ≡ some t
        → After t
    unfolding step
    step_lem s t top below nothing closed e = elim (Option-cases (back? top)) [
      | inl empty ↦
          subst After (some_inj (rw (step, empty) at e)) (next_vector_lem s below nothing closed)
      | inr (v, last) ↦
          let (info, reads, e') =
            >>=-eq-some (get_vertex_info id_eq s.graph v) _ (rw (step, last) at e) in
          elim (Bool-cases (depth_bounded && leb s.depth_bound info.depth)) [
            | inl deep ↦ subst After (some_inj (taken _ _ _ deep e')) (
                not_found (record s { to_process = below; depth_bound_reached = true }) closed
                  nothing)
            | inr f ↦
                visit_lem s t top below v info info.outer_color nothing closed
                  (info-Exists id_eq s.graph v reads) (miss _ _ _ f e')
          ]
    ]

    loop_lem :
        (n : ℕ) (s t : Nested E S) (ended : Bool)
        → After s
        → loop same hit guarded ba_state with_ba_state ba depth_bounded max_depth start_vertex n s
          ≡ some (t, ended)
        → After t
    unfolding loop turn
    loop_lem zero s t ended h e = subst After (ap (λ (r : Nested E S × Bool). r.0) (some_inj e)) h
    loop_lem (suc n) s t ended h e =
        turn_lem s.accepting_found s.to_process refl (λ u. loop_lem n u t ended) e
      where
        turn_lem :
            (found : Bool) (to_process : List (List StateId))
            → s.accepting_found ≡ found
            → ((u : Nested E S)
                → After u
                → loop same hit guarded ba_state with_ba_state ba depth_bounded max_depth
                    start_vertex n u
                  ≡ some (t, ended)
                → After t)
            → turn same hit guarded ba_state with_ba_state ba depth_bounded max_depth start_vertex
                (λ u.
                  loop same hit guarded ba_state with_ba_state ba depth_bounded max_depth
                    start_vertex n u)
                s
                found
                to_process
              ≡ some (t, ended)
            → After t
        turn_lem true to_process is_found rest e =
            subst After (ap (λ (r : Nested E S × Bool). r.0) (some_inj e)) h
        turn_lem false [] is_found rest e =
            subst After (ap (λ (r : Nested E S × Bool). r.0) (some_inj e)) h
        turn_lem false (top ∷ below) is_found rest e =
            let (u, runs, e') =
              >>=-eq-some
                (step same hit guarded ba_state with_ba_state ba depth_bounded max_depth
                  start_vertex s top below)
                _ e in
            rest u (step_lem s u top below is_found h.0 runs) e'

  -- When the search reports a violation, a state is stored whose part of the automaton is accepting and
  -- from which a way of at least one edge of the explored graph leads to itself, whatever the bound on
  -- the depth.
  pub run-Violation :
      (n : ℕ) (depth_bounded : Bool) (max_depth : Option ℕ) (ba_init : ℕ) (initial : State E S)
      (t : Nested E S) (ended : Bool)
      → run same hit guarded ba_state with_ba_state ba n depth_bounded max_depth ba_init initial
        ≡ some (t, ended)
      → t.accepting_found ≡ true
      → Violation t
  unfolding run run_nested_dfs
  run-Violation n depth_bounded max_depth ba_init initial t ended e found =
      let (ba_succ, reads, e1) = >>=-eq-some (get_successors ◌==◌ ba ba_init) _ e in
      let (q, only, e2) =
        >>=-eq-some (only_successor same hit guarded ba_state with_ba_state ba ba_succ) _ e1 in
      let ((knowns, id), stored, e3) =
        >>=-eq-some (insert same hit empty_database (with_ba_state initial q)) _ e2 in
      let (u, there, e4) =
        >>=-eq-some (ensure (exists id_eq (add_vertex id_eq [] id no_info).0 id)) _ e3 in
      (loop_lem depth_bounded max_depth id n (first knowns id) t ended
          (not_found (first knowns id)
            (add_vertex-IsClosed id_eq [] id no_info (record { sound = tt })) refl)
          e4).1
        found
    where
      first : Database E S → StateId → Nested E S
      first knowns id = record {
        knowns = knowns;
        graph = (add_vertex id_eq [] id no_info).0;
        to_process = (id ∷ []) ∷ [];
        accepting_found = false;
        depth_bound_reached = false;
        depth_bound = 32;
      }
