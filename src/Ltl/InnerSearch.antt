-- ===== src/Ltl/InnerSearch.antt =====
-- The inner search of src/llvmsym/ltl.tpp comes to its end, and what it finds is a cycle.
use sym_divine.Base.{
  ℕ, zero, suc, ◌+◌, ◌<◌, ◌≡◌, refl, ◌∙◌, inl, inr, Bool, true, false, List, [], ◌∷◌, All, Returns,
  arith, Option-cases, back?,
}
use sym_divine.Graph.{exists}
use sym_divine.Graph.Closed.{Exists, IsClosed}
use sym_divine.Ltl.{StateGraph, Inner, inner_step, inner_turn, inner_loop, run_inner_dfs}
use sym_divine.Ltl.Cycles.{Leads, Same, Outer, reads}
use sym_divine.Ltl.Weight.{weight, stack_weight, All-back}
use sym_divine.Ltl.Branches.{false-true, left, Good, IsInner, found-find, visit_lem}

module _ {ℓ} {I : Type ℓ} (eq : I → I → Bool) (sound : (a b : I) → eq a b ≡ true → a ≡ b)
    (g : StateGraph I) (start : I) where
  inner_step_lem :
      (h : StateGraph I) (top : List I) (below : List (List I))
      → Same eq h g
      → Outer eq h g
      → IsClosed eq h
      → All (All (Good eq sound g start)) (top ∷ below)
      → Returns
          (inner_step eq start h top below)
          λ t. IsInner eq sound g start t × (left t < weight h + stack_weight (top ∷ below))
  unfolding inner_step
  inner_step_lem h top below same outer closed good = elim (Option-cases (back? top)) [
    | inl empty ↦ (
      record { graph = h; to_process = below; accepting_found = false },
      rw (inner_step, empty) refl,
      (
        record {
          same = same;
          outer = outer;
          closed = closed;
          good = good.1;
          found = λ e. absurd (false-true e);
        },
        omega arith,
      ),
    )
    | inr (v, last) ↦
        let here = All-back (Good eq sound g start) top v last good.0 in
        let (u, found) = found-find eq sound g start h v here.0.0 (same v ∙ here.0.1) in
        let (reads_info, succ, reads_infos) = reads eq h v u closed found in
        let (t, runs, done) =
          visit_lem eq sound g start h top below v u u.vertex_info.inner_color same outer closed
            good last found refl in
        (t, rw (inner_step, last, reads_info) runs, done)
  ]

  -- What the search ends with.
  abbrev pub Ended : Inner I × Bool → Type ℓ
  Ended r =
      (r.1 ≡ true)
      × Same eq r.0.graph g
      × Outer eq r.0.graph g
      × IsClosed eq r.0.graph
      × (r.0.accepting_found ≡ true → Leads eq g start start)

  inner_loop_lem :
      (n : ℕ) (s : Inner I)
      → IsInner eq sound g start s
      → left s < n
      → Returns (inner_loop eq n start s) Ended
  unfolding inner_loop inner_turn
  inner_loop_lem zero s h below = absurd (omega arith)
  inner_loop_lem (suc n) s h enough =
      turn_lem s.graph s.to_process s.accepting_found h enough (λ t. inner_loop_lem n t)
    where
      turn_lem :
          (k : StateGraph I) (to_process : List (List I)) (found : Bool)
          → IsInner eq sound g start
              (record { graph = k; to_process = to_process; accepting_found = found })
          → weight k + stack_weight to_process < suc n
          → ((t : Inner I)
              → IsInner eq sound g start t
              → left t < n
              → Returns (inner_loop eq n start t) Ended)
          → Returns (inner_turn eq (λ t. inner_loop eq n start t) start k to_process found) Ended
      turn_lem k to_process true h enough rest =
          (_, refl, (refl, h.same, h.outer, h.closed, h.found))
      turn_lem k [] false h enough rest = (_, refl, (refl, h.same, h.outer, h.closed, h.found))
      turn_lem k (top ∷ below) false h enough rest =
          let (t, runs, done) = inner_step_lem k top below h.same h.outer h.closed h.good in
          let (r, runs', done') = rest t done.0 (omega arith) in
          (r, rw (inner_turn, runs) runs', done')

  -- The inner search from a vertex of the graph comes to its end, if every edge leads to a vertex and the
  -- fuel is above two for the start and, for each white vertex, two and the number of its edges. The
  -- graph keeps its vertices, with their outer colours, depths and successors, every edge still leads to a
  -- vertex, and when it finds a cycle, there is a way of at least one edge from the start to the start.
  pub run_inner_dfs-ends :
      (n : ℕ)
      → IsClosed eq g
      → Exists eq g start
      → weight g + 2 < n
      → Returns (run_inner_dfs eq n g start) Ended
  unfolding run_inner_dfs exists
  run_inner_dfs-ends n closed (u, found) enough =
      let (r, succ, r') = reads eq g start u closed found in
      let (t, runs, done) =
        inner_loop_lem n
          (record { graph = g; to_process = (start ∷ []) ∷ []; accepting_found = false })
          (record {
            same = λ x. refl;
            outer = λ x. refl;
            closed = closed;
            good = ((((u.neighbors, succ), inl refl), tt), tt);
            found = λ e. absurd (false-true e);
          })
          (omega arith) in
      (t, rw (run_inner_dfs, exists, found) runs, done)
