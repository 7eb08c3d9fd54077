-- ===== src/Layout/Tests.antt =====
-- The flags of a small layout.
use sym_divine.Base.{some, [], ◌∷◌, ◌≡◌, refl, Returns}
use sym_divine.Base.{ℕ, List, map, ◌+◌, ◌<◌, ◌%◌, get_elem?, arith}
use sym_divine.Layout.NewSegment.{shifted, new_segment-owners}
use sym_divine.Layout.{new_segment, wanted_sid, u16, Layout}

-- Two threads, the first with two frames.
abbrev two_threads : Layout
two_threads = record {
  thread_segments = (2 ∷ 3 ∷ 4 ∷ []) ∷ (5 ∷ []) ∷ [];
  segments_in_stack = (1 ∷ 2 ∷ []) ∷ (1 ∷ []) ∷ [];
  segments_to_tid = 65535 ∷ 65535 ∷ 0 ∷ 0 ∷ 0 ∷ 1 ∷ [];
  variables_flags = [];
}

third : wanted_sid two_threads.thread_segments 0 (2 ∷ 3 ∷ 4 ∷ []) ≡ some 5
unfolding wanted_sid
third = refl

new_segment-owners_example : Returns (new_segment two_threads 0) λ r.
    (r.1 ≡ 5)
    × (get_elem? r.0.segments_to_tid 5 ≡ some 0)
    × (get_elem? r.0.segments_to_tid (shifted 5 5) ≡ get_elem? two_threads.segments_to_tid 5)
    × (get_elem? r.0.thread_segments 0 ≡ some (2 ∷ 3 ∷ 4 ∷ 5 ∷ []))
    × ((t : ℕ) → t < 0 → get_elem? r.0.thread_segments t ≡ get_elem? two_threads.thread_segments t)
    × ((t : ℕ) (others : List ℕ)
        → 0 < t
        → get_elem? two_threads.thread_segments t ≡ some others
        → get_elem? r.0.thread_segments t ≡ some (map (λ sid. (sid + 1) % u16) others))
new_segment-owners_example =
    new_segment-owners two_threads 0 5 2 5 (2 ∷ 3 ∷ 4 ∷ []) (1 ∷ 2 ∷ []) refl third (omega arith)
      (omega arith) refl refl
