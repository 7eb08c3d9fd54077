-- ===== src/Evaluator/Tables.antt =====
-- What the functions of src/llvmsym/memorylayout.h and src/llvmsym/thread.h that begin and end frames do to
-- the sizes of their tables.
use sym_divine.Base.{
  ℕ, suc, ◌+◌, ◌-◌, ◌≤◌, ◌<◌, ◌≡◌, refl, ◌∙◌, ap, Bool, some, List, [], ◌∷◌, length,
  length-insert_at, length-push_back, get_elem?, set, pop_back, back?, ◌>>=◌, ensure, Whenever,
  each, stop, never, arith, leb, ltb, ◌==◌, erase_at, map, ensure-true, ltb→lt, ==_iff,
}
use sym_divine.Control
use sym_divine.Control.{Control, Pc}
use sym_divine.Layout
use sym_divine.Layout.{Layout}
use sym_divine.Evaluator.Depths.{
  depths, depths-set, depths-set_new, depths-erase_at, top-length, length-cut,
}

-- A layout with `more` owners, the same flags and the stacks `shape`.
pub record Becomes (l : Layout) (more : ℕ) (shape : List ℕ) (k : Layout) : Type 0 where
  pub owners : length k.segments_to_tid ≡ length l.segments_to_tid + more
  pub flags : k.variables_flags ≡ l.variables_flags
  pub frames : depths k.segments_in_stack ≡ shape

-- A new frame of the thread.
abbrev pub Stacked : Layout → ℕ → Layout → Type 0
Stacked l tid k =
    (stack : List ℕ) × (get_elem? l.segments_in_stack tid ≡ some stack)
    × Becomes l 0 (set (depths l.segments_in_stack) tid (suc (length stack))) k

pub new_stack-Stacked : (l : Layout) (tid : ℕ) → Whenever (Layout.new_stack l tid) (Stacked l tid)
unfolding Layout.new_stack
new_stack-Stacked l tid = each (get_elem? l.segments_in_stack tid) _ λ stack e.
    stop (Stacked l tid) _ (
      stack,
      e,
      record {
        owners = omega arith;
        flags = refl;
        frames =
            depths-set_new l.segments_in_stack tid _
            ∙ ap (set (depths l.segments_in_stack) tid) (length-push_back stack 0);
      },
    )

pub new_segment-Becomes :
    (l : Layout) (tid : ℕ)
    → Whenever (Layout.new_segment l tid) λ r. Becomes l 1 (depths l.segments_in_stack) r.0
unfolding Layout.new_segment
new_segment-Becomes l tid = each (get_elem? l.thread_segments tid) _ λ segments e.
    each (Layout.wanted_sid l.thread_segments tid segments) _ λ wanted e1.
      each (ensure (ltb 1 wanted)) _ λ u e2.
        each (ensure (leb wanted (length l.segments_to_tid))) _ λ v e3.
          each (get_elem? l.segments_in_stack tid) _ λ stack e4. each (back? stack) _ λ count e5.
            stop (λ r. Becomes l 1 (depths l.segments_in_stack) r.0) _
              (record {
                owners = length-insert_at l.segments_to_tid wanted tid;
                flags = refl;
                frames =
                    depths-set l.segments_in_stack tid stack _ e4 (top-length stack count _ e5);
              })

-- What `drop_last_stack` leaves of the stacks: the thread's without its top, or no thread.
abbrev pub dropped : List ℕ → ℕ → ℕ → List ℕ
dropped shape tid (suc (suc n)) = set shape tid (suc n)
dropped shape tid n = erase_at shape tid

length-map : (f : ℕ → ℕ) (xs : List ℕ) → length (map f xs) ≡ length xs
length-map f [] = refl
length-map f (x ∷ xs) = ap suc (length-map f xs)

pub length-pop_back_cons {ℓ} :
    {A : Type ℓ} (x : A) (xs : List A) → length (pop_back (x ∷ xs)) ≡ length xs
length-pop_back_cons x [] = refl
length-pop_back_cons x (y ∷ xs) = ap suc (length-pop_back_cons y xs)

dropped-set :
    (shape : List ℕ) (tid : ℕ) (stack : List ℕ)
    → 1 < length stack
    → set shape tid (length (pop_back stack)) ≡ dropped shape tid (length stack)
dropped-set shape tid [] h = absurd (omega arith)
dropped-set shape tid (x ∷ []) h = absurd (omega arith)
dropped-set shape tid (x ∷ y ∷ xs) h = ap (set shape tid) (length-pop_back_cons x (y ∷ xs))

dropped-erase_at : (shape : List ℕ) (tid n : ℕ) → n ≡ 1 → erase_at shape tid ≡ dropped shape tid n
dropped-erase_at shape tid n h = rw h refl

drop_thread-Becomes :
    (l : Layout) (tid : ℕ) (segments stack : List ℕ)
    → Whenever
        (Layout.drop_thread l tid segments stack)
        (Becomes l 0 (dropped (depths l.segments_in_stack) tid (length stack)))
unfolding Layout.drop_thread
drop_thread-Becomes l tid [] stack = each (ensure (length stack == 1)) _ λ u e.
    stop (Becomes l 0 (dropped (depths l.segments_in_stack) tid (length stack))) _ (record {
      owners = length-map (Layout.lower_tid tid) l.segments_to_tid ∙ omega arith;
      flags = refl;
      frames =
          depths-erase_at l.segments_in_stack tid
          ∙ dropped-erase_at (depths l.segments_in_stack) tid (length stack)
              ((==_iff (length stack) 1).0 (ensure-true _ u e));
    })
drop_thread-Becomes l tid (s ∷ segments) stack = each (ensure (ltb 1 (length stack))) _ λ u e.
    stop (Becomes l 0 (dropped (depths l.segments_in_stack) tid (length stack))) _ (record {
      owners = omega arith;
      flags = refl;
      frames =
          depths-set_new l.segments_in_stack tid (pop_back stack)
          ∙ dropped-set (depths l.segments_in_stack) tid stack
              (ltb→lt 1 (length stack) (ensure-true _ u e));
    })

pub range-lt :
    (l : Layout) (tid : ℕ) → Whenever (Layout.last_stack_segment_range l tid) λ r. r.0 < r.1
unfolding Layout.last_stack_segment_range
range-lt l tid = each (get_elem? l.thread_segments tid) _ λ segments e.
    each (back? segments) _ λ last e1. each (get_elem? l.segments_in_stack tid) _ λ stack e2.
      each (back? stack) _ λ count e3. each (ensure (leb count last)) _ λ u e4.
        each (ensure (ltb 0 count)) _ λ v e5.
          stop (λ r. r.0 < r.1) _
            (let a = ensure-true (leb count last) u e4 in
              let b = ensure-true (ltb 0 count) v e5 in ground arith)

-- `leave` of the layout cuts the segments of the innermost frame of the thread, and the frame.
pub record Drops (l : Layout) (tid : ℕ) (k : Layout) : Type 0 where
  pub range : ℕ × ℕ
  pub ranged : Layout.last_stack_segment_range l tid ≡ some range
  pub stack : List ℕ
  pub found : get_elem? l.segments_in_stack tid ≡ some stack
  pub flags : k.variables_flags ≡ l.variables_flags
  pub frames : depths k.segments_in_stack ≡ dropped (depths l.segments_in_stack) tid (length stack)
  pub owners :
      range.1 ≤ length l.segments_to_tid
      → length k.segments_to_tid + (range.1 - range.0) ≡ length l.segments_to_tid

pub leave-Drops : (l : Layout) (tid : ℕ) → Whenever (Layout.leave l tid) (Drops l tid)
unfolding Layout.leave Layout.drop_last_stack
leave-Drops l tid = each (get_elem? l.thread_segments tid) _ λ segments e.
    each (ensure (ltb 0 (length segments))) _ λ u e1.
      each (Layout.last_stack_segment_range l tid) _ λ r e2.
        each (get_elem? (map (map (Layout.lower r.1 (r.1 - r.0))) l.thread_segments) tid) _
          λ lowered e3. each (get_elem? l.segments_in_stack tid) _ λ stack e4.
            each (ensure (leb (r.1 - r.0) (length lowered))) _ λ v e5. λ k e6.
              let lt : r.0 < r.1 = range-lt l tid r e2 in
              let b = drop_thread-Becomes _ tid _ stack k e6 in
              record {
                range = r;
                ranged = e2;
                stack = stack;
                found = e4;
                flags = b.flags;
                frames = b.frames;
                owners = λ le.
                    let cut = length-cut r.0 r.1 l.segments_to_tid (omega arith) le in
                    let same = b.owners in omega arith;
              }

module _ (c : Control) (tid : ℕ) where
  leave_with-dropped :
      (pc : Pc) (pcs : List Pc)
      → depths (Control.leave_with c tid (pop_back (pc ∷ pcs))).0.context
        ≡ dropped (depths c.context) tid (suc (length pcs))
  unfolding Control.leave_with
  leave_with-dropped pc [] = depths-erase_at c.context tid
  leave_with-dropped pc (q ∷ pcs) =
      depths-set_new c.context tid _
      ∙ ap (λ n. set (depths c.context) tid (suc n)) (length-pop_back_cons q pcs)

  abbrev Left : Control × Bool → Type 0
  Left r =
      (stack : List Pc) × (get_elem? c.context tid ≡ some stack)
      × (depths r.0.context ≡ dropped (depths c.context) tid (length stack))

  popped-Left :
      (stack : List Pc)
      → get_elem? c.context tid ≡ some stack
      → Whenever (back? stack >>= λ top. some (Control.leave_with c tid (pop_back stack))) Left
  popped-Left [] e = never Left
  popped-Left (pc ∷ pcs) e =
      each (back? (pc ∷ pcs)) _ λ top e1. stop Left _ (pc ∷ pcs, e, leave_with-dropped pc pcs)

  pub leave-Left : Whenever (Control.leave c tid) Left
  unfolding Control.leave
  leave-Left = each (get_elem? c.context tid) _ popped-Left

  abbrev Entered : Control → Type 0
  Entered d =
      (stack : List Pc) × (get_elem? c.context tid ≡ some stack)
      × (depths d.context ≡ set (depths c.context) tid (suc (length stack)))

  pub enter_function-Entered : (fun_id : ℕ) → Whenever (Control.enter_function c fun_id tid) Entered
  unfolding Control.enter_function
  enter_function-Entered fun_id = each (get_elem? c.context tid) _ λ stack e. stop Entered _ (
    stack,
    e,
    depths-set_new c.context tid _ ∙ ap (set (depths c.context) tid) (length-push_back stack _),
  )
