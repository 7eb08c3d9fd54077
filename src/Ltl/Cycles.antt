-- ===== src/Ltl/Cycles.antt =====
-- The paths of the graph, which the colours of src/llvmsym/ltl.tpp do not change.
use sym_divine.Base.{
  ◌≡◌, refl, sym, ◌∙◌, inl, inr, Bool, true, some, none, Option, ℕ, List, [], ◌∷◌, All, Bool-cases,
  some_inj,
}
use sym_divine.Database.{find}
use sym_divine.Database.Tables.{taken, miss}
use sym_divine.Graph.{
  Vertex, update, get_successors, get_successors_info, get_vertex_info, infos_of,
}
use sym_divine.Graph.Closed.{Exists, IsSound, IsClosed, IsSound-mono, update-All, find-update}
use sym_divine.Ltl.{VertexColor, inner_as, VertexInfo, StateGraph, with_info, meets}

-- The element stands in the list.
pub data In {ℓ} {I : Type ℓ} (a : I) : List I → Type ℓ where
  at_head : {x : I} {xs : List I} → a ≡ x → In a (x ∷ xs)
  in_tail : {x : I} {xs : List I} → In a xs → In a (x ∷ xs)

module _ {ℓ} {I : Type ℓ} (eq : I → I → Bool) where
  -- Edges and ways of at least one edge.
  abbrev pub Edge : StateGraph I → I → I → Type ℓ
  Edge g a b = (succ : List I) × ((get_successors eq g a ≡ some succ) × In b succ)

  pub data Leads (g : StateGraph I) : I → I → Type ℓ where
    edge : {a b : I} → Edge g a b → Leads g a b
    further : {a b c : I} → Leads g a b → Edge g b c → Leads g a c

  -- A graph with the same edges.
  abbrev pub Same : StateGraph I → StateGraph I → Type ℓ
  Same h g = (x : I) → get_successors eq h x ≡ get_successors eq g x

  -- What the inner search leaves of a vertex.
  abbrev pub outside : Option (Vertex I VertexInfo (Unit {0})) → Option (VertexColor × ℕ × List I)
  outside none = none
  outside (some v) = some (v.vertex_info.outer_color, v.vertex_info.depth, v.neighbors)

  -- A graph with the same vertices, whose outer colours, depths and successors are the same.
  abbrev pub Outer : StateGraph I → StateGraph I → Type ℓ
  Outer h g = (x : I) → outside (find eq h x) ≡ outside (find eq g x)

  pub inner_as-Outer :
      (g : StateGraph I) (id : I) (color : VertexColor)
      → Outer (update eq g id (with_info (inner_as color))) g
  inner_as-Outer [] id color x = refl
  inner_as-Outer ((k, v) ∷ g) id color x = elim (Bool-cases (eq id k)) [
    | inl t ↦ elim (Bool-cases (eq x k)) [ inl t' ↦ rw (t, t') refl | inr f' ↦ rw (t, f') refl ]
    | inr f ↦ elim (Bool-cases (eq x k)) [
      | inl t' ↦ rw (f, t') refl
      | inr f' ↦ rw (f, f') (inner_as-Outer g id color x)
    ]
  ]

  pub Leads-Same : (g h : StateGraph I) {a b : I} → Same h g → Leads g a b → Leads h a b
  Leads-Same g h same (edge (succ, (e, at))) = edge (succ, (same _ ∙ e, at))
  Leads-Same g h same (further way (succ, (e, at))) =
      further (Leads-Same g h same way) (succ, (same _ ∙ e, at))

  pub with_info-Same :
      (g : StateGraph I) (id : I) (change : VertexInfo → VertexInfo)
      → Same (update eq g id (with_info change)) g
  unfolding get_successors
  with_info-Same [] id change x = refl
  with_info-Same ((k, v) ∷ g) id change x = elim (Bool-cases (eq id k)) [
    | inl t ↦ elim (Bool-cases (eq x k)) [ inl t' ↦ rw (t, t') refl | inr f' ↦ rw (t, f') refl ]
    | inr f ↦ elim (Bool-cases (eq x k)) [
      | inl t' ↦ rw (f, t') refl
      | inr f' ↦ rw (f, f') (with_info-Same g id change x)
    ]
  ]

  pub with_info-IsClosed :
      (g : StateGraph I) (id : I) (change : VertexInfo → VertexInfo)
      → IsClosed eq g
      → IsClosed eq (update eq g id (with_info change))
  with_info-IsClosed g id change closed =
      let new = update eq g id (with_info change) in
      record {
        sound =
            update-All eq (IsSound eq new) g id (with_info change) (λ k v h. h)
              (IsSound-mono eq g new
                (λ x found. find-update eq g id x (with_info change) found.0 found.1) g
                closed.sound);
      }

  -- The neighbours of a vertex that is found exist.
  pub find-IsSound :
      (g entries : StateGraph I) (id : I) (v : Vertex I VertexInfo (Unit {0}))
      → All (IsSound eq g) entries
      → find eq entries id ≡ some v
      → All (Exists eq g) v.neighbors
  find-IsSound g [] id v h e = cc
  find-IsSound g ((k, u) ∷ entries) id v h e = elim (Bool-cases (eq id k)) [
    | inl t ↦ rw (sym (some_inj (taken _ _ _ t e))) h.0.0
    | inr f ↦ find-IsSound g entries id v h.1 (miss _ _ _ f e)
  ]

  infos_of_runs :
      (g : StateGraph I) (succ : List I)
      → All (Exists eq g) succ
      → (infos : List VertexInfo) × (infos_of eq g succ ≡ some infos)
  unfolding get_vertex_info
  infos_of_runs g [] h = ([], refl)
  infos_of_runs g (s ∷ succ) h =
      let (v, found) = h.0 in
      let (infos, runs) = infos_of_runs g succ h.1 in
      (v.vertex_info ∷ infos, rw (get_vertex_info, found, runs) refl)

  -- What the reads of a vertex give when it is found.
  pub reads :
      (g : StateGraph I) (id : I) (v : Vertex I VertexInfo (Unit {0}))
      → IsClosed eq g
      → find eq g id ≡ some v
      → (get_vertex_info eq g id ≡ some v.vertex_info)
        × (get_successors eq g id ≡ some v.neighbors)
        × ((infos : List VertexInfo) × (get_successors_info eq g id ≡ some infos))
  unfolding get_vertex_info get_successors get_successors_info
  reads g id v closed found =
      let (infos, runs) = infos_of_runs g v.neighbors (find-IsSound g g id v closed.sound found) in
      (
        rw (get_vertex_info, found) refl,
        rw (get_successors, found) refl,
        (infos, rw (get_successors_info, get_successors, found, runs) refl),
      )

  pub meets-In :
      ((a b : I) → eq a b ≡ true → a ≡ b)
      → (start : I) (succ : List I) → meets eq start succ ≡ true
      → In start succ
  meets-In sound start [] e = cc
  meets-In sound start (s ∷ succ) e = elim (Bool-cases (eq start s)) [
    | inl t ↦ at_head (sound start s t)
    | inr f ↦ in_tail (meets-In sound start succ (miss _ _ _ f e))
  ]
