-- ===== src/Evaluator/Segments.antt =====
-- The segments of a state of src/llvmsym/evaluator.h: the two stores and the layout have as many, and gain and
-- lose them together.
use sym_divine.Base.{
  ℕ, zero, suc, ◌+◌, ◌≤◌, ◌<◌, ◌≡◌, refl, sym, ◌∙◌, ap, List, length, length-insert_at,
  length-erase_at, ensure, Whenever, each, stop, arith, leb, ltb, ensure-true, ltb→lt,
}
use sym_divine.Layout
use sym_divine.Layout.{Layout}
use sym_divine.ExplicitStore
use sym_divine.ExplicitStore.{ValueStore}
use sym_divine.Stores.{DataStore}
use sym_divine.Stores.Laws.{KeepsSegments}
use sym_divine.Evaluator.{Program, State}
use sym_divine.Evaluator.Frames
use sym_divine.Evaluator.Aligned.{move_pointers-SameRows}

module _ {ℓ} {D : Type ℓ} (count : D → ℕ) where
  -- The stores and the flags of the layout have `n` segments.
  pub record HasSegments (n : ℕ) (s : State D) : Type 0 where
    pub cells : length s.explicit_data.cells ≡ n
    pub info : length s.explicit_data.info ≡ n
    pub symbols : count s.symbolic ≡ n
    pub flags : length s.layout.variables_flags ≡ n

-- A state after a change of its stores and of the flags and the frames of its layout.
pub record Keeps {ℓ} {D : Type ℓ} (s t : State D) : Type ℓ where
  pub control : t.control ≡ s.control
  pub layout : t.layout ≡ record s.layout { variables_flags = t.layout.variables_flags }

Keeps-trans {ℓ} : {D : Type ℓ} {s t u : State D} → Keeps s t → Keeps t u → Keeps s u
Keeps-trans {D} {s} {t} {u} p q =
    let flagged : Layout → Layout = λ l. record l { variables_flags = u.layout.variables_flags } in
    record { control = q.control ∙ p.control; layout = q.layout ∙ ap flagged p.layout }

-- One segment more, and one less, in the explicit store.
abbrev pub Longer : ValueStore → ValueStore → Type 0
Longer s t = (length t.cells ≡ suc (length s.cells)) × (length t.info ≡ suc (length s.info))

pub add_segment-Longer :
    (s : ValueStore) (id : ℕ) (widths : List ℕ)
    → Whenever (ExplicitStore.add_segment s id widths) (Longer s)
unfolding ExplicitStore.add_segment
add_segment-Longer s id widths = each (ensure (leb id (length s.cells))) _ λ u e.
    each (ensure (leb id (length s.info))) _ λ v e1.
      stop (Longer s) _
        (length-insert_at s.cells id _ ∙ omega arith, length-insert_at s.info id _ ∙ omega arith)

pub erase_segment-Longer :
    (s : ValueStore) (id : ℕ) → Whenever (ExplicitStore.erase_segment s id) λ t. Longer t s
unfolding ExplicitStore.erase_segment
erase_segment-Longer s id = each (ensure (ltb id (length s.cells))) _ λ u e.
    each (ensure (ltb id (length s.info))) _ λ v e1.
      let a = ltb→lt id (length s.cells) (ensure-true _ u e) in
      let b = ltb→lt id (length s.info) (ensure-true _ v e1) in
      stop (λ t. Longer t s) _
        (
          sym (length-erase_at s.cells id a) ∙ omega arith,
          sym (length-erase_at s.info id b) ∙ omega arith,
        )

-- The same in the layout, whose other tables stay.
abbrev Flagged : Layout → Layout → Type 0
Flagged l k = k ≡ record l { variables_flags = k.variables_flags }

abbrev Extended : Layout → Layout → Type 0
Extended l k = (length k.variables_flags ≡ suc (length l.variables_flags)) × Flagged l k

add_segment-Extended :
    (l : Layout) (sid : ℕ) (widths : List ℕ)
    → Whenever (Layout.add_segment l sid widths) (Extended l)
unfolding Layout.add_segment
add_segment-Extended l sid widths =
    each (ensure (leb sid (length l.variables_flags))) _
      λ u e. stop (Extended l) _ (length-insert_at l.variables_flags sid _ ∙ omega arith, refl)

abbrev Cut : Layout → ℕ → Layout → Type 0
Cut l sid k =
    (length l.variables_flags ≡ suc (length k.variables_flags))
    × (sid ≤ length k.variables_flags)
    × Flagged l k

erase_segment-Cut : (l : Layout) (sid : ℕ) → Whenever (Layout.erase_segment l sid) (Cut l sid)
unfolding Layout.erase_segment
erase_segment-Cut l sid = each (ensure (ltb sid (length l.variables_flags))) _ λ u e.
    let below = ltb→lt sid (length l.variables_flags) (ensure-true _ u e) in
    let less = length-erase_at l.variables_flags sid below in
    stop (Cut l sid) _ (sym less ∙ omega arith, omega arith, refl)

still_below : (k : ℕ) {first m n : ℕ} → (0 < k → first ≤ m) → first ≤ n → m + k ≡ n → first ≤ m
still_below zero h le total = omega arith
still_below (suc k) h le total = h (omega arith)

module _ {ℓ} {D : Type ℓ} (smt : DataStore D) (count : D → ℕ) (laws : KeepsSegments smt count)
    (program : Program) where
  abbrev pub Added : ℕ → State D → State D → Type ℓ
  Added n s t = HasSegments count (suc n) t × Keeps s t

  pub add_segment-Added :
      (s : State D) (sid : ℕ) (widths : List ℕ) (n : ℕ)
      → HasSegments count n s
      → Whenever (Frames.add_segment smt program s sid widths) (Added n s)
  unfolding Frames.add_segment
  add_segment-Added s sid widths n h = each (smt.add_segment s.symbolic sid widths) _ λ symbolic e.
      each (ExplicitStore.add_segment s.explicit_data sid widths) _ λ explicit e1.
        each (Layout.add_segment s.layout sid widths) _ λ layout e2.
          let (cells, info) = add_segment-Longer s.explicit_data sid widths explicit e1 in
          let (longer, flagged) = add_segment-Extended s.layout sid widths layout e2 in
          let moved = move_pointers-SameRows explicit sid 1 in
          stop (Added n s)
            (record s {
              symbolic = symbolic;
              explicit_data = ExplicitStore.move_pointers explicit sid 1;
              layout = layout;
            })
            (
              record {
                cells = moved.cells ∙ cells ∙ ap suc h.cells;
                info = moved.info ∙ info ∙ ap suc h.info;
                symbols = laws.added s.symbolic sid widths symbolic e ∙ ap suc h.symbols;
                flags = longer ∙ ap suc h.flags;
              },
              record { control = refl; layout = flagged },
            )

  -- After `k` segments were erased.
  abbrev pub Erased : ℕ → ℕ → ℕ → State D → State D → Type ℓ
  Erased k first n s t =
      (m : ℕ) × (m + k ≡ n) × (0 < k → first ≤ m) × HasSegments count m t × Keeps s t

  pub erase_segments-Erased :
      (k : ℕ) (s : State D) (first n : ℕ)
      → HasSegments count n s
      → Whenever (Frames.erase_segments smt program k s first) (Erased k first n s)
  unfolding Frames.erase_segments
  erase_segments-Erased zero s first n h =
      stop (Erased 0 first n s) _
        (n, omega arith, λ lt. absurd (omega arith), h, record { control = refl; layout = refl })
  erase_segments-Erased (suc k) s first n h =
      each (smt.erase_segment s.symbolic first) _ λ symbolic e.
        each (ExplicitStore.erase_segment s.explicit_data first) _ λ explicit e1.
          each (Layout.erase_segment s.layout first) _ λ layout e2. λ t e3.
            let (shorter, below, flagged) = erase_segment-Cut s.layout first layout e2 in
            let (cells, info) = erase_segment-Longer s.explicit_data first explicit e1 in
            let one = laws.erased s.symbolic first symbolic e in
            let less : HasSegments count (length layout.variables_flags)
                (record s { symbolic = symbolic; explicit_data = explicit; layout = layout }) =
              record {
                cells = omega arith;
                info = omega arith;
                symbols = omega arith;
                flags = refl;
              } in
            let (m, total, above, has, keeps) =
              erase_segments-Erased k _ first (length layout.variables_flags) less t e3 in
            (
              m,
              omega arith,
              λ lt. still_below k above below total,
              has,
              Keeps-trans (record { control = refl; layout = flagged }) keeps,
            )
