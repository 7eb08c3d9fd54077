-- ===== src/ExplicitStore/Moves.antt =====
-- `movePointers` of src/llvmsym/explicitstore.h keeps every cell in its width, where pointer variables have
-- room for a word.
use sym_divine.Base.{
  ℕ, ◌^◌, ◌<◌, ◌≡◌, List, [], ◌∷◌, true, ltb, Bool-cases, inl, inr, subst, sym, All, arith,
}
use sym_divine.Datastore.Words.{u64}
use sym_divine.ExplicitStore.{
  VariableInfo, Pointer, to_pointer, from_pointer, moved_cell, moved_pointer, moved_row, moved_rows,
}
use sym_divine.ExplicitStore.Bounds.{Fits, FitsAll}

-- A variable that is a pointer has room for a word.
abbrev pub ArePointersWide : VariableInfo → Type 0
ArePointersWide i = i.is_pointer ≡ true → i.bw ≡ 64

pub from_pointer_lt : (p : Pointer) → from_pointer p < u64
unfolding from_pointer
from_pointer_lt p = omega arith

moved_cell_lt : (from count word : ℕ) → word < u64 → moved_cell from count word < u64
unfolding moved_cell moved_pointer from_pointer
moved_cell_lt from count word small = elim (Bool-cases (ltb from (to_pointer word).segment)) [
  | inl past ↦ rw past (omega arith)
  | inr kept ↦ rw kept small
]

-- Moved pointers fit their cells, and the other cells stay.
moved_row-Fits :
    (from count : ℕ) (row : List ℕ) (infos : List VariableInfo)
    → All ArePointersWide infos
    → Fits row infos
    → Fits (moved_row from count row infos) infos
moved_row-Fits from count [] infos wide h = h
moved_row-Fits from count (x ∷ row) [] wide h = elim h [ ]
moved_row-Fits from count (x ∷ row) (i ∷ infos) wide h =
    let rest = moved_row-Fits from count row infos wide.1 h.2 in
    elim (Bool-cases i.is_pointer) [
      | inl flag ↦
          let room : i.bw ≡ 64 = wide.0 flag in
          let small : x < u64 = subst (λ n. x < 2 ^ n) room h.0 in
          (
            rw flag (
                subst (λ n. moved_cell from count x < 2 ^ n) (sym room)
                  (moved_cell_lt from count x small)),
            h.1,
            rest,
          )
      | inr no_pointer ↦ (rw no_pointer h.0, h.1, rest)
    ]

pub moved_rows-FitsAll :
    (from count : ℕ) (rows : List (List ℕ)) (info : List (List VariableInfo))
    → All (All ArePointersWide) info
    → FitsAll rows info
    → FitsAll (moved_rows from count rows info) info
moved_rows-FitsAll from count [] info wide h = h
moved_rows-FitsAll from count (row ∷ rows) [] wide h = elim h [ ]
moved_rows-FitsAll from count (row ∷ rows) (infos ∷ info) wide h = (
  moved_row-Fits from count row infos wide.0 h.0,
  moved_rows-FitsAll from count rows info wide.1 h.1,
)
