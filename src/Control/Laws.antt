-- ===== src/Control/Laws.antt =====
-- What the scheduler and the evaluator rely on: calls and returns match, ids name one thread, the
-- atomic section excludes the other threads.
use sym_divine.Base.{
  ℕ, zero, suc, ◌+◌, ◌%◌, ◌≤◌, ◌<◌, ◌≡◌, refl, ap, sym, none, List, [], ◌∷◌, arith, length,
  get_elem?, get_elem?-lt, some, true, false, back?, pop_back, push_back, get_elem?-set_self,
  set-set, set_same, back?-push_back, pop_back-push_back, push_back-pop_back, lt→ltb, ==_self,
  ◌>>=◌, some_inj, >>=-eq-some, Returns, erase_at,
}
use sym_divine.Control.{
  Control, Pc, start_thread, enter_function, leave, leave_with, advance_by, advance, step_back,
  enter_atomic_section, leave_atomic_section, thread_count, entry_pc, has_tid, any_eq, get_pc,
  get_allowed_threads, owned_by, u16,
}
use sym_divine.Control.Invariant.{IsBusy, Rises, Rises-le}
use sym_divine.Control.Steps.{Reach, Reach-IsConsistent}

any_eq-below :
    (lo tid : ℕ) (ts : List ℕ) (hi : ℕ) → Rises lo ts hi → hi ≤ tid → any_eq tid ts ≡ false
any_eq-below lo tid [] hi h le = refl
any_eq-below lo tid (t ∷ ts) hi h le =
    ground (arith, Rises-le (suc t) ts hi h.1, any_eq-below (suc t) tid ts hi h.1 le)

any_eq-above :
    (lo tid : ℕ) (ts : List ℕ) (hi : ℕ) → Rises lo ts hi → tid < lo → any_eq tid ts ≡ false
any_eq-above lo tid [] hi h lt = refl
any_eq-above lo tid (t ∷ ts) hi h lt = ground (arith, any_eq-above (suc t) tid ts hi h.1)

get_elem?-Rises :
    (lo : ℕ) (ts : List ℕ) (hi i a : ℕ) → Rises lo ts hi → get_elem? ts i ≡ some a → lo ≤ a
get_elem?-Rises lo [] hi i a h e = cc
get_elem?-Rises lo (t ∷ ts) hi zero a h e = omega (arith, h.0, some_inj e)
get_elem?-Rises lo (t ∷ ts) hi (suc i) a h e =
    omega (arith, h.0, get_elem?-Rises (suc t) ts hi i a h.1 e)

any_eq-erase_at :
    (lo tid : ℕ) (ts : List ℕ) (hi i : ℕ)
    → Rises lo ts hi
    → get_elem? ts i ≡ some tid
    → any_eq tid (erase_at ts i) ≡ false
any_eq-erase_at lo tid [] hi i h e = cc
any_eq-erase_at lo tid (t ∷ ts) hi zero h e = ground (arith, any_eq-above (suc t) tid ts hi h.1)
any_eq-erase_at lo tid (t ∷ ts) hi (suc i) h e =
    ground
      (arith, get_elem?-Rises (suc t) ts hi i tid h.1 e, any_eq-erase_at (suc t) tid ts hi i h.1 e)

leave_with-ended :
    (c d : Control) (tid : ℕ) (rest : List Pc)
    → leave_with c tid rest ≡ (d, true)
    → erase_at c.tids tid ≡ d.tids
unfolding leave_with
leave_with-ended c d tid [] e = ap (λ r. r.0.tids) e
leave_with-ended c d tid (pc ∷ pcs) e = cc

-- In every reachable control the id that `start_thread` gives out is the next free one, and no
-- running thread has it.
start_thread_fresh : {c : Control} (f : ℕ) → Reach c → has_tid c (start_thread c f).1 ≡ false
unfolding start_thread has_tid
start_thread_fresh {c} f r =
    any_eq-below 0 c.next_free_tid c.tids c.next_free_tid (Reach-IsConsistent r).0.rising
      (omega arith)

-- In every reachable control, when a thread with an id ends by `leave`, no thread has that id any
-- more, so that a join on it does not wait.
pub has_tid-leave :
    {c d : Control} (tid id : ℕ)
    → Reach c
    → leave c tid ≡ some (d, true)
    → get_elem? c.tids tid ≡ some id
    → has_tid d id ≡ false
unfolding leave has_tid
has_tid-leave {c} {d} tid id r e named =
    let (stack, _, e₁) = >>=-eq-some (get_elem? c.context tid) _ e in
    let (top, _, done) = >>=-eq-some (back? stack) _ e₁ in
    rw (← leave_with-ended c d tid (pop_back stack) (some_inj done))
      (any_eq-erase_at 0 id c.tids c.next_free_tid tid (Reach-IsConsistent r).0.rising named)

-- A call followed by a return of the same thread gives back the control as it was, and the thread
-- has not ended, when the thread exists and has a frame.
pub leave-enter_function :
    (c : Control) (f tid : ℕ) (stack : List Pc)
    → get_elem? c.context tid ≡ some stack
    → IsBusy stack
    → (enter_function c f tid >>= λ d. leave d tid) ≡ some (c, false)
unfolding enter_function leave leave_with
leave-enter_function c f tid [] e b = elim b [ ]
leave-enter_function c f tid (pc ∷ pcs) e b =
    let inside = get_elem?-lt c.context tid _ e in
    let stack = pc ∷ pcs in
    rw (
      e,
      get_elem?-set_self c.context tid (push_back stack (entry_pc f)) inside,
      back?-push_back stack (entry_pc f),
      pop_back-push_back stack (entry_pc f),
      set-set c.context tid (push_back stack (entry_pc f)) stack,
      set_same c.context tid stack e,
    )

-- Moving a thread one instruction on and one back gives back the control as it was: this is how a
-- thread waits at a lock or a join.
step_back-advance :
    (c : Control) (tid : ℕ) (pc : Pc)
    → get_pc c tid ≡ some pc
    → pc.instruction < u16
    → (advance c tid >>= λ d. step_back d tid) ≡ some c
unfolding get_pc advance_by
step_back-advance c tid pc e small =
    let (stack, found, e₁) = >>=-eq-some (get_elem? c.context tid) _ e in
    let inside = get_elem?-lt c.context tid stack found in
    let moved : Pc = record pc { instruction = (pc.instruction + 1) % u16 } in
    let rest = pop_back stack in
    let same : (moved.instruction + 65535) % u16 ≡ pc.instruction = omega arith in
    rw (
      found,
      e₁,
      get_elem?-set_self c.context tid (push_back rest moved) inside,
      back?-push_back rest moved,
      pop_back-push_back rest moved,
      same,
      push_back-pop_back stack pc e₁,
      set-set c.context tid (push_back rest moved) stack,
      set_same c.context tid stack found,
    )

-- An existing thread that enters an atomic section, when no other thread is in one, is from then on
-- the only one allowed to run, and leaving the section gives back the control as it was.
pub atomic_section_excludes :
    (c : Control) (tid : ℕ)
    → tid < thread_count c
    → owned_by (back? c.atomic_section) tid ≡ true
    → Returns
        (enter_atomic_section c tid)
        λ d. (get_allowed_threads d ≡ tid ∷ []) × (leave_atomic_section d tid ≡ some c)
unfolding thread_count enter_atomic_section leave_atomic_section get_allowed_threads
atomic_section_excludes c tid lt own = (
  record c { atomic_section = push_back c.atomic_section tid },
  rw (lt→ltb tid (length c.context) lt, own),
  (
    rw (back?-push_back c.atomic_section tid),
    rw (back?-push_back c.atomic_section tid, ==_self tid, pop_back-push_back c.atomic_section tid),
  ),
)

get_elem?-erase_at_last {ℓ} :
    {A : Type ℓ} (xs : List A) (i : ℕ) → suc i ≡ length xs → get_elem? (erase_at xs i) i ≡ none
get_elem?-erase_at_last [] i e = refl
get_elem?-erase_at_last (x ∷ []) zero e = refl
get_elem?-erase_at_last (x ∷ y ∷ xs) zero e = absurd (omega arith)
get_elem?-erase_at_last (x ∷ xs) (suc i) e = get_elem?-erase_at_last xs i (omega arith)

leave_with-last :
    (c d : Control) (tid : ℕ) (rest : List Pc)
    → suc tid ≡ length c.context
    → leave_with c tid rest ≡ (d, true)
    → (d.atomic_section ≡ c.atomic_section) × (get_elem? d.context tid ≡ none)
unfolding leave_with
leave_with-last c d tid [] l e =
    let same : erase_at c.context tid ≡ d.context = ap (λ r. r.0.context) e in
    (sym (ap (λ r. r.0.atomic_section) e), rw (← same) (get_elem?-erase_at_last c.context tid l))
leave_with-last c d tid (pc ∷ pcs) l e = cc

-- When the last thread of the list ends by `leave` while it is inside its own atomic section, the
-- section is left behind: the only thread then allowed to run is one that does not exist.
ended_in_atomic_section :
    (c d : Control) (tid : ℕ)
    → back? c.atomic_section ≡ some tid
    → suc tid ≡ thread_count c
    → leave c tid ≡ some (d, true)
    → (get_allowed_threads d ≡ tid ∷ []) × (get_pc d tid ≡ none)
unfolding thread_count leave get_allowed_threads get_pc
ended_in_atomic_section c d tid own l e =
    let (stack, _, e₁) = >>=-eq-some (get_elem? c.context tid) _ e in
    let (top, _, done) = >>=-eq-some (back? stack) _ e₁ in
    let (kept, gone) = leave_with-last c d tid (pop_back stack) l (some_inj done) in
    (rw (kept, own), rw gone)
