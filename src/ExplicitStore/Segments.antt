-- ===== src/ExplicitStore/Segments.antt =====
-- The cells keep to their widths when a segment comes or goes.
use sym_divine.Base.{
  ℕ, zero, suc, ◌≤◌, ◌≡◌, List, [], ◌∷◌, map, replicate, length, insert_at, erase_at, some, false,
  leb, ltb, ensure, arith, >>=-eq-some, some_inj, subst, All,
}
use sym_divine.ExplicitStore.{ValueStore, VariableInfo, add_segment, erase_segment}
use sym_divine.ExplicitStore.Bounds.{IsBounded, FitsAll, Fits}
use native.Mathlib.Nat.{one-le-pow}

zeros-Fits :
    (bws : List ℕ)
    → All (λ bw. bw ≤ 64) bws
    → Fits (replicate (length bws) 0) (map (λ bw. record { bw = bw; is_pointer = false }) bws)
zeros-Fits [] h = tt
zeros-Fits (bw ∷ bws) h = (one-le-pow bw 2 (omega arith), h.0, zeros-Fits bws h.1)

insert_at-FitsAll :
    (rows : List (List ℕ)) (info : List (List VariableInfo)) (id : ℕ) (row : List ℕ)
    (infos : List VariableInfo)
    → Fits row infos
    → FitsAll rows info
    → FitsAll (insert_at rows id row) (insert_at info id infos)
insert_at-FitsAll rows info zero row infos f h = (f, h)
insert_at-FitsAll [] [] (suc id) row infos f h = (f, h)
insert_at-FitsAll [] (j ∷ info) (suc id) row infos f h = elim h [ ]
insert_at-FitsAll (r ∷ rows) [] (suc id) row infos f h = elim h [ ]
insert_at-FitsAll (r ∷ rows) (j ∷ info) (suc id) row infos f h =
    (h.0, insert_at-FitsAll rows info id row infos f h.1)

erase_at-FitsAll :
    (rows : List (List ℕ)) (info : List (List VariableInfo)) (id : ℕ)
    → FitsAll rows info
    → FitsAll (erase_at rows id) (erase_at info id)
erase_at-FitsAll [] [] id h = tt
erase_at-FitsAll [] (j ∷ info) id h = elim h [ ]
erase_at-FitsAll (r ∷ rows) [] id h = elim h [ ]
erase_at-FitsAll (r ∷ rows) (j ∷ info) zero h = h.1
erase_at-FitsAll (r ∷ rows) (j ∷ info) (suc id) h = (h.0, erase_at-FitsAll rows info id h.1)

pub add_segment-IsBounded :
    (s t : ValueStore) (id : ℕ) (bws : List ℕ)
    → All (λ bw. bw ≤ 64) bws
    → IsBounded s
    → add_segment s id bws ≡ some t
    → IsBounded t
unfolding add_segment
add_segment-IsBounded s t id bws small h e =
    let (u, _, r₁) = >>=-eq-some (ensure (leb id (length s.cells))) _ e in
    let (v, _, done) = >>=-eq-some (ensure (leb id (length s.info))) _ r₁ in
    subst IsBounded (some_inj done)
      (record { fits = insert_at-FitsAll s.cells s.info id _ _ (zeros-Fits bws small) h.fits })

pub erase_segment-IsBounded :
    (s t : ValueStore) (id : ℕ) → IsBounded s → erase_segment s id ≡ some t → IsBounded t
unfolding erase_segment
erase_segment-IsBounded s t id h e =
    let (u, _, r₁) = >>=-eq-some (ensure (ltb id (length s.cells))) _ e in
    let (v, _, done) = >>=-eq-some (ensure (ltb id (length s.info))) _ r₁ in
    subst IsBounded (some_inj done) (record { fits = erase_at-FitsAll s.cells s.info id h.fits })
