-- ===== src/Layout/NewSegment.antt =====
-- The owners of the segments after `newSegment`.
use sym_divine.Base.{
  ℕ, zero, suc, ◌+◌, ◌%◌, ◌≤◌, ◌<◌, ◌≡◌, refl, true, Bool-cases, inl, inr, ltb→lt, lt→ltb, Returns,
  some, List, [], ◌∷◌, ltb, leb, if◌then◌else◌, length, get_elem?, get_elem?-lt, get_elem?-set_self,
  get_elem?-set_ne, map, ◌++◌, ap, ◌∙◌, some_inj, set, insert_at, get_elem?-insert_at,
  get_elem?-insert_at_lt, get_elem?-insert_at_ge, back?, push_back, pop_back, arith,
}
use sym_divine.Layout.{Layout, new_segment, wanted_sid, bump_after, u16}

-- Where a segment stands after a new one was put in at `sid`.
abbrev pub shifted : ℕ → ℕ → ℕ
shifted sid j = if ltb j sid then j else suc j

get_elem?-shifted {ℓ} :
    {A : Type ℓ} (xs : List A) (sid j : ℕ) (a : A)
    → sid ≤ length xs
    → get_elem? (insert_at xs sid a) (shifted sid j) ≡ get_elem? xs j
get_elem?-shifted xs sid j a le = elim (Bool-cases (ltb j sid)) [
  | inl t ↦ rw t (get_elem?-insert_at_lt xs sid j a le (ltb→lt j sid t))
  | inr f ↦
      let past : sid ≤ j = ground (arith, f) in rw f (get_elem?-insert_at_ge xs sid j a le past)
]

get_elem?-bump_after :
    (tid : ℕ) (threads : List (List ℕ))
    → get_elem? (bump_after tid threads) tid ≡ get_elem? threads tid
get_elem?-bump_after zero [] = refl
get_elem?-bump_after (suc tid) [] = refl
get_elem?-bump_after zero (segments ∷ threads) = refl
get_elem?-bump_after (suc tid) (segments ∷ threads) = get_elem?-bump_after tid threads

get_elem?-map {ℓ κ} :
    {A : Type ℓ} {B : Type κ} (f : A → B) (xs : List A) (i : ℕ) (x : A)
    → get_elem? xs i ≡ some x
    → get_elem? (map f xs) i ≡ some (f x)
get_elem?-map f [] i x e = cc
get_elem?-map f (y ∷ xs) zero x e = ap (λ z. some (f z)) (some_inj e)
get_elem?-map f (y ∷ xs) (suc i) x e = get_elem?-map f xs i x e

bump_after-before :
    (tid t : ℕ) (threads : List (List ℕ))
    → t < tid
    → get_elem? (bump_after tid threads) t ≡ get_elem? threads t
bump_after-before zero t threads lt = elim lt [ ]
bump_after-before (suc tid) t [] lt = refl
bump_after-before (suc tid) zero (segments ∷ threads) lt = refl
bump_after-before (suc tid) (suc t) (segments ∷ threads) lt =
    bump_after-before tid t threads (omega arith)

bump_after-past :
    (tid t : ℕ) (threads : List (List ℕ)) (segments : List ℕ)
    → tid < t
    → get_elem? threads t ≡ some segments
    → get_elem? (bump_after tid threads) t ≡ some (map (λ sid. (sid + 1) % u16) segments)
bump_after-past tid t [] segments lt e = cc
bump_after-past zero zero (x ∷ threads) segments lt e = elim lt [ ]
bump_after-past zero (suc t) (x ∷ threads) segments lt e =
    get_elem?-map (map (λ sid. (sid + 1) % u16)) threads t segments e
bump_after-past (suc tid) zero (x ∷ threads) segments lt e = elim lt [ ]
bump_after-past (suc tid) (suc t) (x ∷ threads) segments lt e =
    bump_after-past tid t threads segments (omega arith) e

-- When the thread and its innermost frame exist, and the id after the last segment of the thread (or, if
-- it has none, of the thread before it) lies within the table of owners, `newSegment` runs to its end
-- with that id: the new segment belongs to the thread, every other segment, at its new place, belongs
-- to the thread that it belonged to, the list of the thread gets the new segment at its end, the lists
-- of the threads before it stay, and in those after it every id is one greater (all in 16 bits).
pub new_segment-owners :
    (l : Layout) (tid wanted count j : ℕ) (segments stack : List ℕ)
    → get_elem? l.thread_segments tid ≡ some segments
    → wanted_sid l.thread_segments tid segments ≡ some wanted
    → 1 < wanted
    → wanted ≤ length l.segments_to_tid
    → get_elem? l.segments_in_stack tid ≡ some stack
    → back? stack ≡ some count
    → Returns (new_segment l tid) λ r.
      (r.1 ≡ wanted)
      × (get_elem? r.0.segments_to_tid wanted ≡ some tid)
      × (get_elem? r.0.segments_to_tid (shifted wanted j) ≡ get_elem? l.segments_to_tid j)
      × (get_elem? r.0.thread_segments tid ≡ some (segments ++ wanted % u16 ∷ []))
      × ((t : ℕ) → t < tid → get_elem? r.0.thread_segments t ≡ get_elem? l.thread_segments t)
      × ((t : ℕ) (others : List ℕ)
          → tid < t
          → get_elem? l.thread_segments t ≡ some others
          → get_elem? r.0.thread_segments t ≡ some (map (λ sid. (sid + 1) % u16) others))
unfolding new_segment
new_segment-owners l tid wanted count j segments stack e₁ e₂ low le e₅ e₆ =
    let new : List ℕ = push_back segments (wanted % u16) in
    let written : List (List ℕ) = set l.thread_segments tid new in
    let passes : leb wanted (length l.segments_to_tid) ≡ true = ground arith in
    (
      (
        record l {
          segments_to_tid = insert_at l.segments_to_tid wanted tid;
          thread_segments = bump_after tid written;
          segments_in_stack =
              set l.segments_in_stack tid (push_back (pop_back stack) ((count + 1) % u16));
        },
        wanted,
      ),
      rw (e₁, e₂, lt→ltb 1 wanted low, passes, e₅, e₆),
      (
        refl,
        get_elem?-insert_at l.segments_to_tid wanted tid le,
        get_elem?-shifted l.segments_to_tid wanted j tid le,
        get_elem?-bump_after tid written
            ∙ get_elem?-set_self l.thread_segments tid new
                (get_elem?-lt l.thread_segments tid segments e₁),
        (λ t lt.
            bump_after-before tid t written lt
            ∙ get_elem?-set_ne l.thread_segments tid t new (λ e. absurd (omega arith))),
        (λ t others lt e.
            bump_after-past tid t written others lt
              (get_elem?-set_ne l.thread_segments tid t new (λ e. absurd (omega arith)) ∙ e)),
      ),
    )
