-- ===== src/Ltl/Resets.antt =====
-- The graph of src/llvmsym/ltl.tpp after `reset_dfs`, and what its reads and sizes need.
use sym_divine.Base.{
  ◌≡◌, refl, Bool, none, some, List, [], ◌∷◌, length, replicate, >>=-eq-some, All, arith,
  Bool-cases, inl, inr, true,
}
use sym_divine.Database.{find}
use sym_divine.Database.Tables.{miss}
use sym_divine.Graph.{get_vertex_info, sizes_fit}
use sym_divine.Graph.Closed.{Exists, IsClosed, IsSound, IsSound-mono}
use sym_divine.Graph.Successors.{length-replicate}
use sym_divine.Ltl.{VertexInfo, StateGraph, with_info, reset, reset_dfs}

none-some {ℓ} : {A : Type ℓ} {a : A} → none ≡ some a → ⊥
none-some e = cc

pub replicate-fits {ℓ κ υ} :
    {I : Type ℓ} {V : Type κ} {E : Type υ} (succ : List I) (info : V) (edge : E)
    → sizes_fit succ (replicate (length succ) info) (replicate (length succ) edge) ≡ true
replicate-fits [] info edge = refl
replicate-fits (s ∷ succ) info edge =
    rw (length-replicate (length succ) info, length-replicate (length succ) edge) ground arith

module _ {ℓ} {I : Type ℓ} (eq : I → I → Bool) where
  reset_dfs-Exists : (g : StateGraph I) (x : I) → Exists eq g x → Exists eq (reset_dfs g) x
  reset_dfs-Exists [] x (v, e) = absurd (none-some e)
  reset_dfs-Exists ((k, u) ∷ g) x (v, e) = elim (Bool-cases (eq x k)) [
    | inl t ↦ (with_info reset u, rw t refl)
    | inr f ↦ let (w, e') = reset_dfs-Exists g x (v, miss _ _ _ f e) in (w, rw f e')
  ]

  pub reset_dfs-IsClosed : (g : StateGraph I) → IsClosed eq g → IsClosed eq (reset_dfs g)
  reset_dfs-IsClosed g closed = record {
    sound =
        entries (reset_dfs g) g
          (IsSound-mono eq g (reset_dfs g) (λ x found. reset_dfs-Exists g x found) g closed.sound);
  }
    where
      entries :
          (h : StateGraph I) (k : StateGraph I)
          → All (IsSound eq h) k
          → All (IsSound eq h) (reset_dfs k)
      entries h [] all = tt
      entries h ((id, v) ∷ k) all = (all.0, entries h k all.1)

  pub info-Exists :
      (g : StateGraph I) (x : I) {info : VertexInfo}
      → get_vertex_info eq g x ≡ some info
      → Exists eq g x
  unfolding get_vertex_info
  info-Exists g x e = let (v, found, same_info) = >>=-eq-some (find eq g x) _ e in (v, found)
