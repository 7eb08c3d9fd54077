-- ===== src/ExplicitStore/Pointers.antt =====
-- Pointers of the explicit store: their words, and what they point to after the calls
-- `addSegment( sid, ... )` and `movePointers( sid, 1 )` of src/llvmsym/evaluator.h.
use sym_divine.Base.{
  sym, Bool-cases, inl, inr, ltb→lt, ltb, ap, ◌∙◌, get_elem?-insert_at_ge, get_elem?-insert_at_lt,
  ℕ, zero, suc, ◌+◌, ◌-◌, ◌*◌, ◌/◌, ◌%◌, ◌≤◌, ◌<◌, ◌≡◌, ◌≢◌, true, false, refl, List, [], ◌∷◌, some,
  if◌then◌else◌, get_elem?, get_elem?-lt, get_elem?-insert_at_lt, get_elem?-insert_at_ge, Returns,
  length, insert_at, ensure, >>=-eq-some, some_inj, arith, leb, ltb, subst,
}
use sym_divine.ExplicitStore.Bounds.{cell-row}
use sym_divine.ExplicitStore.{
  ValueStore, VariableInfo, Pointer, u32, to_pointer, from_pointer, moved_pointer, moved,
  moved_cell, moved_row, moved_rows, move_pointers, add_segment, cell,
}

-- A pointer whose segment and offset are 32-bit numbers is read back from its word as it was.
to_pointer-from_pointer :
    (p : Pointer) → p.segment < u32 → p.offset < u32 → to_pointer (from_pointer p) ≡ p
unfolding to_pointer from_pointer
to_pointer-from_pointer p seg off =
    let high : (p.segment % u32 * u32 + p.offset % u32) / u32 ≡ p.segment = omega arith in
    let low : (p.segment % u32 * u32 + p.offset % u32) % u32 ≡ p.offset = omega arith in
    rw (high, low)

-- What a cell holds after the pointers were moved.
abbrev pub relocated : ℕ → ℕ → VariableInfo → ℕ → ℕ
relocated from count i word = if i.is_pointer then moved_cell from count word else word

get_elem?-moved_row :
    (from count : ℕ) (row : List ℕ) (infos : List VariableInfo) (offset word : ℕ) (i : VariableInfo)
    → get_elem? row offset ≡ some word
    → get_elem? infos offset ≡ some i
    → get_elem? (moved_row from count row infos) offset ≡ some (relocated from count i word)
get_elem?-moved_row from count [] infos offset word i e f = cc
get_elem?-moved_row from count (x ∷ row) [] offset word i e f = cc
get_elem?-moved_row from count (x ∷ row) (j ∷ infos) zero word i e f = rw (some_inj e, some_inj f)
get_elem?-moved_row from count (x ∷ row) (j ∷ infos) (suc offset) word i e f =
    get_elem?-moved_row from count row infos offset word i e f

get_elem?-moved_rows :
    (from count : ℕ) (rows : List (List ℕ)) (info : List (List VariableInfo)) (segment : ℕ)
    (row : List ℕ) (infos : List VariableInfo)
    → get_elem? rows segment ≡ some row
    → get_elem? info segment ≡ some infos
    → get_elem? (moved_rows from count rows info) segment ≡ some (moved_row from count row infos)
get_elem?-moved_rows from count [] info segment row infos e f = cc
get_elem?-moved_rows from count (x ∷ rows) [] segment row infos e f = cc
get_elem?-moved_rows from count (x ∷ rows) (j ∷ info) zero row infos e f =
    rw (some_inj e, some_inj f)
get_elem?-moved_rows from count (x ∷ rows) (j ∷ info) (suc segment) row infos e f =
    get_elem?-moved_rows from count rows info segment row infos e f

ensure-leb : (a b : ℕ) (u : Unit {0}) → ensure (leb a b) ≡ some u → a ≤ b
ensure-leb a b u e = ground arith

-- Moving the pointers rewrites each cell on its own, the pointers only.
pub cell-move_pointers :
    (s : ValueStore) (from count segment offset word : ℕ) (i : VariableInfo)
    → cell s.cells segment offset ≡ some word
    → cell s.info segment offset ≡ some i
    → cell (move_pointers s from count).cells segment offset ≡ some (relocated from count i word)
unfolding move_pointers
cell-move_pointers s from count segment offset word i e f =
    let (row, e₁, e₂) = >>=-eq-some (get_elem? s.cells segment) _ e in
    let (infos, f₁, f₂) = >>=-eq-some (get_elem? s.info segment) _ f in
    rw (get_elem?-moved_rows from count s.cells s.info segment row infos e₁ f₁)
      (get_elem?-moved_row from count row infos offset word i e₂ f₂)

-- Where the insertion of a segment at `id` takes the segment that stood at `segment`.
abbrev pub place : ℕ → ℕ → ℕ
place id segment = if ltb segment id then segment else suc segment

insert_at-place {ℓ} :
    {A : Type ℓ} (xs : List A) (id segment : ℕ) (new a : A)
    → id ≤ length xs
    → get_elem? xs segment ≡ some a
    → get_elem? (insert_at xs id new) (place id segment) ≡ some a
insert_at-place xs id segment new a inside e = elim (Bool-cases (ltb segment id)) [
  | inl lt ↦
      let before : segment < id = ltb→lt segment id lt in
      rw lt (get_elem?-insert_at_lt xs id segment new inside before ∙ e)
  | inr ge ↦
      let past : id ≤ segment = ground (arith, ge) in
      rw ge (get_elem?-insert_at_ge xs id segment new inside past ∙ e)
]

cell-insert_at-place {ℓ} :
    {A : Type ℓ} (rows : List (List A)) (id segment offset : ℕ) (new : List A) (a : A)
    → id ≤ length rows
    → cell rows segment offset ≡ some a
    → cell (insert_at rows id new) (place id segment) offset ≡ some a
cell-insert_at-place rows id segment offset new a inside e =
    let (row, e₁, e₂) = >>=-eq-some (get_elem? rows segment) _ e in
    rw (insert_at-place rows id segment new row inside e₁) e₂

-- A new segment at `id`, with the pointers past it moved by one, leaves every variable with its value, at
-- its new place, moved itself if it is a pointer.
move_pointers-add_segment :
    (s t : ValueStore) (id segment offset word : ℕ) (bws : List ℕ) (i : VariableInfo)
    → add_segment s id bws ≡ some t
    → cell s.cells segment offset ≡ some word
    → cell s.info segment offset ≡ some i
    → cell (move_pointers t id 1).cells (place id segment) offset ≡ some (relocated id 1 i word)
unfolding add_segment
move_pointers-add_segment s t id segment offset word bws i done e f =
    let (u, in₁, r₁) = >>=-eq-some (ensure (leb id (length s.cells))) _ done in
    let (v, in₂, same) = >>=-eq-some (ensure (leb id (length s.info))) _ r₁ in
    let le₁ : id ≤ length s.cells = ensure-leb id (length s.cells) u in₁ in
    let le₂ : id ≤ length s.info = ensure-leb id (length s.info) v in₂ in
    subst
      (λ r.
        cell (move_pointers r id 1).cells (place id segment) offset ≡ some (relocated id 1 i word))
      (some_inj same)
      (cell-move_pointers _ id 1 (place id segment) offset word i
        (cell-insert_at-place s.cells id segment offset _ word le₁ e)
        (cell-insert_at-place s.info id segment offset _ i le₂ f))

moved-place :
    (id segment : ℕ) → segment < u32 - 1 → segment ≢ id → moved id 1 segment ≡ place id segment
unfolding moved
moved-place id segment room other = elim (Bool-cases (ltb id segment)) [
  | inl lt ↦
      let past = ltb→lt id segment lt in
      let next : (segment + 1) % u32 ≡ suc segment = omega arith in
      let after : ltb segment id ≡ false = ground arith in rw (lt, next, after) refl
  | inr ge ↦ let before : ltb segment id ≡ true = ground (arith, ge, other) in rw (ge, before) refl
]

to_pointer-moved_cell :
    (id : ℕ) (p : Pointer)
    → p.segment < u32 - 1
    → p.offset < u32
    → to_pointer (moved_cell id 1 (from_pointer p))
      ≡ record { segment = moved id 1 p.segment; offset = p.offset }
unfolding moved_cell moved moved_pointer
to_pointer-moved_cell id p seg off =
    let back = to_pointer-from_pointer p (omega arith) off in
    let next : Pointer = record { segment = (p.segment + 1) % u32; offset = p.offset } in
    subst
      (λ q.
        to_pointer (moved_pointer id 1 q (from_pointer p))
        ≡ record { segment = moved id 1 p.segment; offset = p.offset })
      (sym back)
      (elim (Bool-cases (ltb id p.segment)) [
        | inl lt ↦ rw lt (to_pointer-from_pointer next (omega arith) off)
        | inr ge ↦ rw ge back
      ])

-- A new segment at `id`, with the pointers past it moved by one, takes every pointer variable to its new
-- place, and keeps what it points to: it leads to its target, which has its value (moved, if it is a
-- pointer in its turn). Only a pointer to the segment that stood at `id` stays as it was, and so
-- names the new segment.
pub pointer_target_kept :
    (s t : ValueStore) (id segment offset word : ℕ) (p : Pointer) (bws : List ℕ)
    (i j : VariableInfo)
    → length s.cells < u32 - 1
    → add_segment s id bws ≡ some t
    → cell s.cells segment offset ≡ some (from_pointer p)
    → cell s.info segment offset ≡ some i
    → i.is_pointer ≡ true
    → p.offset < u32
    → cell s.cells p.segment p.offset ≡ some word
    → cell s.info p.segment p.offset ≡ some j
    → Returns (cell (move_pointers t id 1).cells (place id segment) offset) λ w.
      (p.segment ≢ id
        → cell (move_pointers t id 1).cells (to_pointer w).segment (to_pointer w).offset
          ≡ some (relocated id 1 j word))
      × (p.segment ≡ id → to_pointer w ≡ p)
unfolding moved
pointer_target_kept s t id segment offset word p bws i j room done e f flag off e' f' =
    let (row, found, _) = cell-row s.cells p.segment p.offset word e' in
    let seg : p.segment < u32 - 1 = omega (arith, get_elem?-lt s.cells p.segment row found) in
    let here = move_pointers-add_segment s t id segment offset (from_pointer p) bws i done e f in
    let there = move_pointers-add_segment s t id p.segment p.offset word bws j done e' f' in
    (
      moved_cell id 1 (from_pointer p),
      here ∙ ap some (rw flag),
      (
        (λ other.
            rw (to_pointer-moved_cell id p seg off, moved-place id p.segment seg other) there),
        (λ same.
            to_pointer-moved_cell id p seg off
            ∙ ap (λ n. record { segment = n; offset = p.offset })
                (let still : ltb id p.segment ≡ false = ground arith in rw still refl)),
      ),
    )
