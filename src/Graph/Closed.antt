-- ===== src/Graph/Closed.antt =====
-- The adjacency lists name vertices of the graph only, and every edge has its info: what the methods
-- that add vertices and edges keep.
use sym_divine.Base.{
  ◌≡◌, refl, Bool, some, List, [], ◌∷◌, length, All, All-mono, Bool-cases, Option-cases, inl, inr,
}
use sym_divine.Database.{find, insert_pair}
use sym_divine.Database.Tables.{taken, miss}
use sym_divine.Graph.{Vertex, add_vertex, update, add_vertices}

module _ {ℓ κ υ} {I : Type ℓ} {V : Type κ} {E : Type υ} (eq : I → I → Bool) where
  abbrev pub Exists : List (I × Vertex I V E) → I → Type (ℓ ⊔ κ ⊔ υ)
  Exists g id = (v : Vertex I V E) × (find eq g id ≡ some v)

  abbrev pub IsSound : List (I × Vertex I V E) → I × Vertex I V E → Type (ℓ ⊔ κ ⊔ υ)
  IsSound g (id, v) = All (Exists g) v.neighbors × (length v.edge_info ≡ length v.neighbors)

  -- Every neighbour exists, and every edge has its info.
  pub record IsClosed (g : List (I × Vertex I V E)) : Type (ℓ ⊔ κ ⊔ υ) where
    pub sound : All (IsSound g) g

  -- A vertex that is found stays as it is when another is put in.
  find-insert_pair-some :
      (g : List (I × Vertex I V E)) (id x : I) (v w : Vertex I V E)
      → find eq g x ≡ some w
      → find eq (insert_pair eq g id v) x ≡ some w
  find-insert_pair-some [] id x v w e = cc
  find-insert_pair-some ((k, u) ∷ g) id x v w e = elim (Bool-cases (eq id k)) [
    | inl t ↦ rw t e
    | inr f ↦ elim (Bool-cases (eq x k)) [
      | inl t ↦ rw (f, t) (taken _ _ _ t e)
      | inr f' ↦ rw (f, f') (find-insert_pair-some g id x v w (miss _ _ _ f' e))
    ]
  ]

  pub find-add_vertex :
      (g : List (I × Vertex I V E)) (id x : I) (info : V) (w : Vertex I V E)
      → find eq g x ≡ some w
      → find eq (add_vertex eq g id info).0 x ≡ some w
  unfolding add_vertex
  find-add_vertex g id x info w e = elim (Option-cases (find eq g id)) [
    | inl new ↦ rw (add_vertex, new) (find-insert_pair-some g id x _ w e)
    | inr (v, old) ↦ rw (add_vertex, old) e
  ]

  pub find-add_vertices :
      (g : List (I × Vertex I V E)) (x : I) (succ : List (I × V)) (w : Vertex I V E)
      → find eq g x ≡ some w
      → find eq (add_vertices eq g succ) x ≡ some w
  find-add_vertices g x [] w e = e
  find-add_vertices g x ((id, info) ∷ succ) w e =
      find-add_vertices (add_vertex eq g id info).0 x succ w (find-add_vertex g id x info w e)

  pub find-update :
      (g : List (I × Vertex I V E)) (id x : I) (f : Vertex I V E → Vertex I V E) (w : Vertex I V E)
      → find eq g x ≡ some w
      → Exists (update eq g id f) x
  find-update [] id x f w e = cc
  find-update ((k, u) ∷ g) id x f w e = elim (Bool-cases (eq id k)) [
    | inl t ↦ elim (Bool-cases (eq x k)) [
      | inl t' ↦ (f u, rw (t, t'))
      | inr f' ↦ (w, rw (t, f') (miss _ _ _ f' e))
    ]
    | inr f₁ ↦ elim (Bool-cases (eq x k)) [
      | inl t' ↦ (u, rw (f₁, t'))
      | inr f' ↦ let (v, found) = find-update g id x f w (miss _ _ _ f' e) in (v, rw (f₁, f') found)
    ]
  ]

  module _ {ι} (P : I × Vertex I V E → Type ι) where
    insert_pair-All :
        (g : List (I × Vertex I V E)) (id : I) (v : Vertex I V E)
        → P (id, v)
        → All P g
        → All P (insert_pair eq g id v)
    insert_pair-All [] id v p h = (p, tt)
    insert_pair-All ((k, u) ∷ g) id v p h = elim (Bool-cases (eq id k)) [
      | inl t ↦ rw t h
      | inr f ↦ rw f (h.0, insert_pair-All g id v p h.1)
    ]

    pub update-All :
        (g : List (I × Vertex I V E)) (id : I) (f : Vertex I V E → Vertex I V E)
        → ((k : I) (v : Vertex I V E) → P (k, v) → P (k, f v))
        → All P g
        → All P (update eq g id f)
    update-All [] id f step h = tt
    update-All ((k, u) ∷ g) id f step h = elim (Bool-cases (eq id k)) [
      | inl t ↦ rw t (step k u h.0, h.1)
      | inr f₁ ↦ rw f₁ (h.0, update-All g id f step h.1)
    ]

  -- What is sound for a graph is sound for one that has its vertices.
  pub IsSound-mono :
      (g h : List (I × Vertex I V E))
      → ((x : I) → Exists g x → Exists h x)
      → (entries : List (I × Vertex I V E)) → All (IsSound g) entries
      → All (IsSound h) entries
  IsSound-mono g h grows =
      All-mono λ entry sound. (All-mono grows entry.1.neighbors sound.0, sound.1)

  pub add_vertex-IsClosed :
      (g : List (I × Vertex I V E)) (id : I) (info : V)
      → IsClosed g
      → IsClosed (add_vertex eq g id info).0
  unfolding add_vertex
  add_vertex-IsClosed g id info h = elim (Option-cases (find eq g id)) [
    | inl new ↦
        let fresh : Vertex I V E = record { vertex_info = info; neighbors = []; edge_info = [] } in
        let grows : (x : I) → Exists g x → Exists (insert_pair eq g id fresh) x =
          λ x found. (found.0, find-insert_pair-some g id x fresh found.0 found.1) in
        let kept = IsSound-mono g (insert_pair eq g id fresh) grows g h.sound in
        let grown : IsClosed (insert_pair eq g id fresh) = record {
          sound = insert_pair-All (IsSound _) g id fresh (tt, refl) kept;
        } in
        rw (add_vertex, new) grown
    | inr (v, old) ↦ rw (add_vertex, old) h
  ]

  pub add_vertices-IsClosed :
      (g : List (I × Vertex I V E)) (succ : List (I × V))
      → IsClosed g
      → IsClosed (add_vertices eq g succ)
  add_vertices-IsClosed g [] h = h
  add_vertices-IsClosed g ((id, info) ∷ succ) h =
      add_vertices-IsClosed (add_vertex eq g id info).0 succ (add_vertex-IsClosed g id info h)
