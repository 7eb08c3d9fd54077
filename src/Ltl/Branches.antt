-- ===== src/Ltl/Branches.antt =====
-- What the inner search of src/llvmsym/ltl.tpp keeps, and each of its branches: something is done, and
-- what is found is a cycle.
use sym_divine.Base.{
  length, ℕ, ◌+◌, ◌<◌, ◌≡◌, refl, sym, ◌∙◌, ◌⊎◌, inl, inr, Bool, true, false, none, some, List, [],
  ◌∷◌, All, All-mono, Returns, arith, Option-cases, back?, pop_back, subst,
}
use sym_divine.Database.{find}
use sym_divine.Graph.{Vertex, get_successors, update}
use sym_divine.Graph.Closed.{Exists, IsClosed}
use sym_divine.Ltl.{
  VertexColor, white, grey, black, VertexInfo, StateGraph, with_info, inner_as, Inner, meets, visit,
}
use sym_divine.Ltl.Cycles.{
  In, at_head, in_tail, Leads, edge, further, Edge, Same, Outer, inner_as-Outer, with_info-Same,
  with_info-IsClosed, find-IsSound, reads, meets-In,
}
use sym_divine.Ltl.Weight.{
  weight, stack_weight, cost, weight-inner_as, length-pop_back, All-back, All-pop_back,
}

All-In {ℓ κ} : {A : Type ℓ} {P : A → Type κ} (xs : List A) → ((a : A) → In a xs → P a) → All P xs
All-In [] h = tt
All-In (x ∷ xs) h = (h x (at_head refl), All-In xs (λ a at. h a (in_tail at)))

All-both {ℓ κ ι} :
    {A : Type ℓ} (P : A → Type κ) (Q : A → Type ι) (xs : List A)
    → All P xs
    → All Q xs
    → All (λ a. P a × Q a) xs
All-both P Q [] p q = tt
All-both P Q (x ∷ xs) p q = ((p.0, q.0), All-both P Q xs p.1 q.1)

pub false-true : false ≡ true → ⊥
false-true e = cc

-- What is left to do.
abbrev pub left {ℓ} : {I : Type ℓ} → Inner I → ℕ
left s = weight s.graph + stack_weight s.to_process

module _ {ℓ} {I : Type ℓ} (eq : I → I → Bool) (sound : (a b : I) → eq a b ≡ true → a ≡ b)
    (g : StateGraph I) (start : I) where
  -- A vertex of the graph that the search starts from or that a way leads to from there.
  abbrev pub Good : I → Type ℓ
  Good v =
      ((succ : List I) × (get_successors eq g v ≡ some succ)) × ((v ≡ start) ⊎ Leads eq g start v)

  pub record IsInner (s : Inner I) : Type ℓ where
    pub same : Same eq s.graph g
    pub outer : Outer eq s.graph g
    pub closed : IsClosed eq s.graph
    pub good : All (All Good) s.to_process
    pub found : s.accepting_found ≡ true → Leads eq g start start

  pub found-find :
      (h : StateGraph I) (v : I) (succ : List I) → get_successors eq h v ≡ some succ → Exists eq h v
  unfolding get_successors
  found-find h v succ e = elim (Option-cases (find eq h v)) [
    | inl nothing ↦ absurd (none_some (rw nothing at e))
    | inr (w, found) ↦ (w, found)
  ]
    where
      none_some : {a : List I} → none ≡ some a → ⊥
      none_some e = cc

  extend : (v w : I) → (v ≡ start) ⊎ Leads eq g start v → Edge eq g v w → Leads eq g start w
  extend v w (inl e) step = edge (subst (λ u. Edge eq g u w) e step)
  extend v w (inr way) step = further way step

  -- The successors of a good vertex are good.
  successors-Good :
      (h : StateGraph I) (v : I) (u : Vertex I VertexInfo (Unit {0}))
      → Same eq h g
      → IsClosed eq h
      → find eq h v ≡ some u
      → Good v
      → get_successors eq g v ≡ some u.neighbors × All Good u.neighbors
  successors-Good h v u same closed found good =
      let (reads_info, succ, reads_infos) = reads eq h v u closed found in
      let succ' = sym (same v) ∙ succ in
      let there : All (λ w. (ns : List I) × (get_successors eq g w ≡ some ns)) u.neighbors =
        All-mono
          (λ w found'.
            let (r, succ_w, r') = reads eq h w found'.0 closed found'.1 in
            (found'.0.neighbors, sym (same w) ∙ succ_w))
          u.neighbors (find-IsSound eq h h v u closed.sound found) in
      (
        succ',
        All-both _ _ u.neighbors there
            (All-In u.neighbors λ w at. inr (extend v w good.1 (u.neighbors, (succ', at)))),
      )

  pub visit_lem :
      (h : StateGraph I) (top : List I) (below : List (List I)) (v : I)
      (u : Vertex I VertexInfo (Unit {0})) (color : VertexColor)
      → Same eq h g
      → Outer eq h g
      → IsClosed eq h
      → All (All Good) (top ∷ below)
      → back? top ≡ some v
      → find eq h v ≡ some u
      → u.vertex_info.inner_color ≡ color
      → Returns
          (visit eq start h top below v color)
          λ t. IsInner t × (left t < weight h + stack_weight (top ∷ below))
  unfolding visit
  visit_lem h top below v u white same outer closed good last found color =
      let (reads_info, succ, reads_infos) = reads eq h v u closed found in
      let (infos, reads_infos') = reads_infos in
      let (succ', succ_good) =
        successors-Good h v u same closed found (All-back Good top v last good.0) in
      let next = update eq h v (with_info (inner_as grey)) in
      let weights : weight (update eq h v (with_info (inner_as grey)))
            + cost white (length u.neighbors)
          ≡ weight h + 0 =
        subst
          (λ c.
            weight (update eq h v (with_info (inner_as grey))) + cost c (length u.neighbors)
            ≡ weight h + 0)
          color (weight-inner_as eq h v grey u found) in
      (
        record {
          graph = next;
          to_process = u.neighbors ∷ top ∷ below;
          accepting_found = meets eq start u.neighbors;
        },
        rw (visit, succ, reads_infos') refl,
        (
          record {
            same = λ x. with_info-Same eq h v (inner_as grey) x ∙ same x;
            outer = λ x. inner_as-Outer eq h v grey x ∙ outer x;
            closed = with_info-IsClosed eq h v (inner_as grey) closed;
            good = (succ_good, good);
            found = λ e.
                extend v start (All-back Good top v last good.0).1
                  (u.neighbors, (succ', meets-In eq sound start u.neighbors e));
          },
          omega arith,
        ),
      )
  visit_lem h top below v u grey same outer closed good last found color =
      let weights : weight (update eq h v (with_info (inner_as black)))
            + cost grey (length u.neighbors)
          ≡ weight h + 0 =
        subst
          (λ c.
            weight (update eq h v (with_info (inner_as black))) + cost c (length u.neighbors)
            ≡ weight h + 0)
          color (weight-inner_as eq h v black u found) in
      let shorter = length-pop_back top v last in
      (
        record {
          graph = update eq h v (with_info (inner_as black));
          to_process = pop_back top ∷ below;
          accepting_found = false;
        },
        refl,
        (
          record {
            same = λ x. with_info-Same eq h v (inner_as black) x ∙ same x;
            outer = λ x. inner_as-Outer eq h v black x ∙ outer x;
            closed = with_info-IsClosed eq h v (inner_as black) closed;
            good = (All-pop_back Good top good.0, good.1);
            found = λ e. absurd (false-true e);
          },
          omega arith,
        ),
      )
  visit_lem h top below v u black same outer closed good last found color =
      let shorter = length-pop_back top v last in
      (
        record { graph = h; to_process = pop_back top ∷ below; accepting_found = false },
        refl,
        (
          record {
            same = same;
            outer = outer;
            closed = closed;
            good = (All-pop_back Good top good.0, good.1);
            found = λ e. absurd (false-true e);
          },
          omega arith,
        ),
      )
