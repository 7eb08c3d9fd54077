-- ===== src/Ltl/Weight.antt =====
-- What is left to do for the inner search of src/llvmsym/ltl.tpp: the white vertices with their edges, and
-- the vectors of the stack with their elements.
use sym_divine.Base.{
  ℕ, suc, ◌+◌, ◌≡◌, refl, sym, some, List, [], ◌∷◌, length, back?, pop_back, All, arith, Bool-cases,
  inl, inr, some_inj, Bool, subst,
}
use sym_divine.Database.{find}
use sym_divine.Database.Tables.{taken, miss}
use sym_divine.Graph.{Vertex, update}
use sym_divine.Ltl.{VertexColor, white, grey, black, VertexInfo, StateGraph, with_info, inner_as}

abbrev pub cost : VertexColor → ℕ → ℕ
cost white n = n + 2
cost grey n = 0
cost black n = 0

abbrev pub weight {ℓ} : {I : Type ℓ} → StateGraph I → ℕ
weight [] = 0
weight ((id, v) ∷ g) = cost v.vertex_info.inner_color (length v.neighbors) + weight g

abbrev pub stack_weight {ℓ} : {I : Type ℓ} → List (List I) → ℕ
stack_weight [] = 0
stack_weight (top ∷ below) = length top + 1 + stack_weight below

pub weight-inner_as {ℓ} :
    {I : Type ℓ} (eq : I → I → Bool) (g : StateGraph I) (id : I) (color : VertexColor)
    (v : Vertex I VertexInfo (Unit {0}))
    → find eq g id ≡ some v
    → weight (update eq g id (with_info (inner_as color)))
        + cost v.vertex_info.inner_color (length v.neighbors)
      ≡ weight g + cost color (length v.neighbors)
weight-inner_as eq [] id color v e = cc
weight-inner_as eq ((k, u) ∷ g) id color v e = elim (Bool-cases (eq id k)) [
  | inl t ↦ rw (t, sym (some_inj (taken _ _ _ t e))) omega arith
  | inr f ↦ let rest = weight-inner_as eq g id color v (miss _ _ _ f e) in rw f omega arith
]

module _ {ℓ} {A : Type ℓ} where
  pub length-pop_back :
      (xs : List A) (a : A) → back? xs ≡ some a → suc (length (pop_back xs)) ≡ length xs
  length-pop_back [] a e = cc
  length-pop_back (x ∷ []) a e = refl
  length-pop_back (x ∷ y ∷ xs) a e = let rest = length-pop_back (y ∷ xs) a e in omega arith

  pub All-back {κ} : (P : A → Type κ) (xs : List A) (a : A) → back? xs ≡ some a → All P xs → P a
  All-back P [] a e h = cc
  All-back P (x ∷ []) a e h = subst P (some_inj e) h.0
  All-back P (x ∷ y ∷ xs) a e h = All-back P (y ∷ xs) a e h.1

  pub All-pop_back {κ} : (P : A → Type κ) (xs : List A) → All P xs → All P (pop_back xs)
  All-pop_back P [] h = tt
  All-pop_back P (x ∷ []) h = tt
  All-pop_back P (x ∷ y ∷ xs) h = (h.0, All-pop_back P (y ∷ xs) h.1)
