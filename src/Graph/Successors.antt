-- ===== src/Graph/Successors.antt =====
-- `addSuccessors`, as the searches call it on each state they expand.
use sym_divine.Base.{
  zero, suc, ℕ, ◌≡◌, refl, ap, sym, ◌∙◌, Bool, true, none, some, List, [], ◌∷◌, ◌++◌, length,
  length-append, replicate, All, All-append, All-mono, arith, Bool-cases, Option-cases, inl, inr,
  some_inj, Returns,
}
use sym_divine.Database.{find, insert_pair}
use sym_divine.Database.Tables.{taken, miss, hit_none}
use sym_divine.Graph.{
  Vertex, add_vertex, update, with_edges, add_vertices, with_default, zipped, pairs, edge_infos,
  sizes_fit, add_successors, get_successors,
}
use sym_divine.Graph.Closed.{
  Exists, IsSound, IsClosed, IsSound-mono, update-All, find-update, find-add_vertices,
  add_vertices-IsClosed,
}

pub length-replicate {ℓ} : {A : Type ℓ} (n : ℕ) (a : A) → length (replicate n a) ≡ n
length-replicate zero a = refl
length-replicate (suc n) a = ap suc (length-replicate n a)

module _ {ℓ κ υ} {I : Type ℓ} {V : Type κ} (P : I → Type υ) where
  with_default-All :
      (no_info : V) (succ : List I) → All (λ p. P p.0) (with_default no_info succ) → All P succ
  with_default-All no_info [] h = tt
  with_default-All no_info (s ∷ succ) h = (h.0, with_default-All no_info succ h.1)

  zipped-All :
      (succ : List I) (infos : List V)
      → length succ ≡ length infos
      → All (λ p. P p.0) (zipped succ infos)
      → All P succ
  zipped-All [] infos e h = tt
  zipped-All (s ∷ succ) [] e h = absurd (omega arith)
  zipped-All (s ∷ succ) (info ∷ infos) e h = (h.0, zipped-All succ infos (omega arith) h.1)

  pairs-All {ι} :
      {E : Type ι} (no_info : V) (succ : List I) (v_info : List V) (e_info : List E)
      → sizes_fit succ v_info e_info ≡ true
      → All (λ p. P p.0) (pairs no_info succ v_info)
      → All P succ
  pairs-All no_info succ [] e_info fits h = with_default-All no_info succ h
  pairs-All no_info succ (info ∷ infos) e_info fits h =
      zipped-All succ (info ∷ infos) (ground (arith, fits)) h

length-edge_infos {ℓ κ υ} :
    {I : Type ℓ} {V : Type κ} {E : Type υ} (no_edge : E) (succ : List I) (v_info : List V)
    (e_info : List E)
    → sizes_fit succ v_info e_info ≡ true
    → length (edge_infos no_edge succ e_info) ≡ length succ
length-edge_infos no_edge succ v_info [] fits = length-replicate (length succ) no_edge
length-edge_infos no_edge succ [] (i ∷ e_info) fits = ground (arith, fits)
length-edge_infos no_edge succ (info ∷ infos) (i ∷ e_info) fits = ground (arith, fits)

module _ {ℓ κ υ} {I : Type ℓ} {V : Type κ} {E : Type υ} (eq : I → I → Bool)
    (eq_refl : (id : I) → eq id id ≡ true) where
  find-insert_pair_self :
      (g : List (I × Vertex I V E)) (id : I) (v : Vertex I V E)
      → find eq g id ≡ none
      → find eq (insert_pair eq g id v) id ≡ some v
  find-insert_pair_self [] id v e = rw (eq_refl id)
  find-insert_pair_self ((k, u) ∷ g) id v e = elim (Bool-cases (eq id k)) [
    | inl t ↦ absurd (hit_none _ _ _ t e)
    | inr f ↦ rw (f, f) (find-insert_pair_self g id v (miss _ _ _ f e))
  ]

  add_vertex-Exists :
      (g : List (I × Vertex I V E)) (id : I) (info : V) → Exists eq (add_vertex eq g id info).0 id
  unfolding add_vertex
  add_vertex-Exists g id info = elim (Option-cases (find eq g id)) [
    | inl new ↦
        let fresh : Vertex I V E = record { vertex_info = info; neighbors = []; edge_info = [] } in
        (fresh, rw (add_vertex, new) (find-insert_pair_self g id fresh new))
    | inr (v, old) ↦ (v, rw (add_vertex, old) old)
  ]

  add_vertices-Exists :
      (g : List (I × Vertex I V E)) (succ : List (I × V))
      → All (λ p. Exists eq (add_vertices eq g succ) p.0) succ
  add_vertices-Exists g [] = tt
  add_vertices-Exists g ((id, info) ∷ succ) =
      let (v, found) = add_vertex-Exists g id info in
      (
        (v, find-add_vertices eq (add_vertex eq g id info).0 id succ v found),
        add_vertices-Exists (add_vertex eq g id info).0 succ,
      )

  find-update_self :
      (g : List (I × Vertex I V E)) (id : I) (f : Vertex I V E → Vertex I V E) (v : Vertex I V E)
      → find eq g id ≡ some v
      → find eq (update eq g id f) id ≡ some (f v)
  find-update_self [] id f v e = cc
  find-update_self ((k, u) ∷ g) id f v e = elim (Bool-cases (eq id k)) [
    | inl t ↦ rw (t, t) (ap (λ w. some (f w)) (some_inj (taken _ _ _ t e)))
    | inr f' ↦ rw (f', f') (find-update_self g id f v (miss _ _ _ f' e))
  ]

  grown-IsClosed :
      (g : List (I × Vertex I V E)) (source : I) (succ : List I) (infos : List E)
      → All (Exists eq g) succ
      → length infos ≡ length succ
      → IsClosed eq g
      → IsClosed eq (update eq g source (with_edges eq succ infos))
  grown-IsClosed g source succ infos there sized closed =
      let new : List (I × Vertex I V E) = update eq g source (with_edges eq succ infos) in
      let grows : (x : I) → Exists eq g x → Exists eq new x =
        λ x found. find-update eq g source x (with_edges eq succ infos) found.0 found.1 in
      let step : (k : I) (v : Vertex I V E)
          → IsSound eq new (k, v)
          → IsSound eq new (k, with_edges eq succ infos v) =
        λ k v sound. (
          All-append (Exists eq new) v.neighbors succ sound.0 (All-mono grows succ there),
          length-append v.edge_info infos
              ∙ rw (sound.1, sized) (sym (length-append v.neighbors succ)),
        ) in
      record {
        sound =
            update-All eq (IsSound eq new) g source (with_edges eq succ infos) step
              (IsSound-mono eq g new grows g closed.sound);
      }

  -- `addSuccessors` of a vertex of the graph, with as many infos as successors or none, runs to its end
  -- and appends the successors to those of the vertex, repeated ones included; and if every edge led to a vertex and had its
  -- info before, so it does afterwards, when the equality of ids is reflexive.
  pub add_successors-IsClosed :
      (no_info : V) (no_edge : E) (g : List (I × Vertex I V E)) (source : I) (succ : List I)
      (v_info : List V) (e_info : List E) (v : Vertex I V E)
      → IsClosed eq g
      → sizes_fit succ v_info e_info ≡ true
      → find eq g source ≡ some v
      → Returns
          (add_successors eq no_info no_edge g source succ v_info e_info)
          λ r. IsClosed eq r.0 × (get_successors eq r.0 source ≡ some (v.neighbors ++ succ))
  unfolding add_successors get_successors
  add_successors-IsClosed no_info no_edge g source succ v_info e_info v closed fits old =
      let grown : List (I × Vertex I V E) = add_vertices eq g (pairs no_info succ v_info) in
      let infos : List E = edge_infos no_edge succ e_info in
      let there =
        pairs-All (Exists eq grown) no_info succ v_info e_info fits
          (add_vertices-Exists g (pairs no_info succ v_info)) in
      let sized = length-edge_infos no_edge succ v_info e_info fits in
      let kept = add_vertices-IsClosed eq g (pairs no_info succ v_info) closed in
      let still = find-add_vertices eq g source (pairs no_info succ v_info) v old in
      (
        (update eq grown source (with_edges eq succ infos), true),
        rw (add_successors, fits, old),
        (
          grown-IsClosed grown source succ infos there sized kept,
          rw (find-update_self grown source (with_edges eq succ infos) v still),
        ),
      )
