-- ===== src/Control/Steps.antt =====
-- The operations of `Control` as a step relation, and the invariant of every reachable control.
use sym_divine.Base.{
  ℕ, ltb, ◌==◌, sym, ap, subst, some_inj, length-push_back, ◌<◌, ◌≡◌, refl, List, [], ◌∷◌, arith,
  length, get_elem?, set, length-set, length-erase_at, get_elem?-lt, All-append, Bool, some, back?,
  pop_back, push_back, >>=-eq-some, ensure,
}
use sym_divine.Control.{
  Control, Pc, start_thread, enter_function, jump_to, leave, leave_with, advance_by,
  enter_atomic_section, leave_atomic_section, entry_pc, owned_by, pc_zero, clear,
}
use sym_divine.Control.Invariant.{
  IsConsistent, IsBusy, Rises, push_back-Rises, erase_at-Rises, set-All, erase_at-All,
  push_back-IsBusy,
}

-- One call of a method that changes the control, by the evaluator.
pub data Step (c d : Control) : Type 0 where
  starts : (f : ℕ) → c.next_free_tid < 65535 → d ≡ (start_thread c f).0 → Step c d
  enters : (f tid : ℕ) → enter_function c f tid ≡ some d → Step c d
  jumps : (pc : Pc) (tid : ℕ) (keep : Bool) → jump_to c pc tid keep ≡ some d → Step c d
  leaves : (tid : ℕ) (ended : Bool) → leave c tid ≡ some (d, ended) → Step c d
  advances : (tid delta : ℕ) → advance_by c tid delta ≡ some d → Step c d
  locks : (tid : ℕ) → enter_atomic_section c tid ≡ some d → Step c d
  unlocks : (tid : ℕ) → leave_atomic_section c tid ≡ some d → Step c d
  -- `initial` clears a control without threads.
  clears : length c.context ≡ 0 → d ≡ clear c → Step c d

abbrev pub initial_control : Control
initial_control = record {
  context = [];
  previous_bb = [];
  tids = [];
  atomic_section = [];
  next_free_tid = 0;
}

pub data Reach : Control → Type 0 where
  here : Reach initial_control
  next : {c d : Control} → Reach c → Step c d → Reach d

start_thread-IsConsistent :
    (c : Control) (f : ℕ)
    → c.next_free_tid < 65535
    → IsConsistent c
    → IsConsistent (start_thread c f).0
unfolding start_thread
start_thread-IsConsistent c f room v = record {
  previous = omega (
    arith,
    v.previous,
    length-push_back c.previous_bb pc_zero,
    length-push_back c.context (entry_pc f ∷ []),
  );
  named = omega (
    arith,
    v.named,
    length-push_back c.tids c.next_free_tid,
    length-push_back c.context (entry_pc f ∷ []),
  );
  busy = All-append IsBusy c.context ((entry_pc f ∷ []) ∷ []) v.busy (omega arith, tt);
  rising =
      subst (Rises 0 (push_back c.tids c.next_free_tid)) (omega arith)
        (push_back-Rises 0 c.tids c.next_free_tid v.rising);
}

-- A write of a non-empty stack.
set_stack-IsConsistent :
    (c : Control) (tid : ℕ) (stack : List Pc)
    → IsBusy stack
    → IsConsistent c
    → IsConsistent (record c { context = set c.context tid stack })
set_stack-IsConsistent c tid stack b v = record {
  previous = omega (arith, v.previous, length-set c.context tid stack);
  named = omega (arith, v.named, length-set c.context tid stack);
  busy = set-All IsBusy c.context tid stack b v.busy;
  rising = v.rising;
}

leave_with-IsConsistent :
    (c : Control) (tid : ℕ) (rest : List Pc)
    → tid < length c.context
    → IsConsistent c
    → IsConsistent (leave_with c tid rest).0
unfolding leave_with
leave_with-IsConsistent c tid [] lt v =
    let p = v.previous in
    let n = v.named in
    record {
      previous = omega (
        arith,
        length-erase_at c.previous_bb tid (omega arith),
        length-erase_at c.context tid lt,
      );
      named =
          omega (arith, length-erase_at c.tids tid (omega arith), length-erase_at c.context tid lt);
      busy = erase_at-All IsBusy c.context tid v.busy;
      rising = erase_at-Rises 0 c.tids c.next_free_tid tid v.rising;
    }
leave_with-IsConsistent c tid (pc ∷ pcs) lt v =
    set_stack-IsConsistent c tid (pc ∷ pcs) (omega arith) v

enter_function-IsConsistent :
    (c d : Control) (f tid : ℕ) → enter_function c f tid ≡ some d → IsConsistent c → IsConsistent d
unfolding enter_function
enter_function-IsConsistent c d f tid e v =
    let (stack, _, done) = >>=-eq-some (get_elem? c.context tid) _ e in
    subst IsConsistent (some_inj done)
      (set_stack-IsConsistent c tid _ (push_back-IsBusy stack (entry_pc f)) v)

jump_to-IsConsistent :
    (c d : Control) (pc : Pc) (tid : ℕ) (keep : Bool)
    → jump_to c pc tid keep ≡ some d
    → IsConsistent c
    → IsConsistent d
unfolding jump_to
jump_to-IsConsistent c d pc tid keep e v =
    let (stack, _, e₁) = >>=-eq-some (get_elem? c.context tid) _ e in
    let (top, _, e₂) = >>=-eq-some (back? stack) _ e₁ in
    let (_, _, done) = >>=-eq-some (ensure (ltb tid (length c.previous_bb))) _ e₂ in
    let w = set_stack-IsConsistent c tid _ (push_back-IsBusy (pop_back stack) pc) v in
    subst IsConsistent (some_inj done) (record {
      previous = omega (arith, w.previous, length-set c.previous_bb tid _);
      named = w.named;
      busy = w.busy;
      rising = w.rising;
    })

advance_by-IsConsistent :
    (c d : Control) (tid delta : ℕ)
    → advance_by c tid delta ≡ some d
    → IsConsistent c
    → IsConsistent d
unfolding advance_by
advance_by-IsConsistent c d tid delta e v =
    let (stack, _, e₁) = >>=-eq-some (get_elem? c.context tid) _ e in
    let (top, _, done) = >>=-eq-some (back? stack) _ e₁ in
    subst IsConsistent (some_inj done)
      (set_stack-IsConsistent c tid _ (push_back-IsBusy (pop_back stack) _) v)

leave-IsConsistent :
    (c d : Control) (tid : ℕ) (ended : Bool)
    → leave c tid ≡ some (d, ended)
    → IsConsistent c
    → IsConsistent d
unfolding leave
leave-IsConsistent c d tid ended e v =
    let (stack, found, e₁) = >>=-eq-some (get_elem? c.context tid) _ e in
    let (top, _, done) = >>=-eq-some (back? stack) _ e₁ in
    subst IsConsistent (ap (λ r. r.0) (some_inj done))
      (leave_with-IsConsistent c tid (pop_back stack) (get_elem?-lt c.context tid stack found) v)

-- The atomic section is no part of the invariant.
relock-IsConsistent :
    (c : Control) (section : List ℕ)
    → IsConsistent c
    → IsConsistent (record c { atomic_section = section })
relock-IsConsistent c section v = record {
  previous = v.previous;
  named = v.named;
  busy = v.busy;
  rising = v.rising;
}

clear-IsConsistent : (c : Control) → length c.context ≡ 0 → IsConsistent c → IsConsistent (clear c)
unfolding clear
clear-IsConsistent c none_there v = record {
  previous = omega (arith, v.previous);
  named = omega (arith, v.named);
  busy = tt;
  rising = v.rising;
}

clear-misaligned : (c : Control) → IsConsistent c → 0 < length c.context → ¬ IsConsistent (clear c)
unfolding clear
clear-misaligned c v some_there w = omega (arith, v.named, w.named)

Step-IsConsistent : {c d : Control} → Step c d → IsConsistent c → IsConsistent d
unfolding enter_atomic_section leave_atomic_section
Step-IsConsistent {c} (starts f room e) v =
    subst IsConsistent (sym e) (start_thread-IsConsistent c f room v)
Step-IsConsistent {c} {d} (enters f tid e) v = enter_function-IsConsistent c d f tid e v
Step-IsConsistent {c} {d} (jumps pc tid keep e) v = jump_to-IsConsistent c d pc tid keep e v
Step-IsConsistent {c} {d} (leaves tid ended e) v = leave-IsConsistent c d tid ended e v
Step-IsConsistent {c} {d} (advances tid delta e) v = advance_by-IsConsistent c d tid delta e v
Step-IsConsistent {c} (locks tid e) v =
    let (_, _, e₁) = >>=-eq-some (ensure (ltb tid (length c.context))) _ e in
    let (_, _, done) = >>=-eq-some (ensure (owned_by (back? c.atomic_section) tid)) _ e₁ in
    subst IsConsistent (some_inj done) (relock-IsConsistent c _ v)
Step-IsConsistent {c} (unlocks tid e) v =
    let (owner, _, e₁) = >>=-eq-some (back? c.atomic_section) _ e in
    let (_, _, done) = >>=-eq-some (ensure (owner == tid)) _ e₁ in
    subst IsConsistent (some_inj done) (relock-IsConsistent c _ v)
Step-IsConsistent {c} (clears none_there e) v =
    subst IsConsistent (sym e) (clear-IsConsistent c none_there v)

Reach-holds : {c : Control} → Reach c → IsConsistent c
Reach-holds here = record { previous = refl; named = refl; busy = tt; rising = omega arith }
Reach-holds (next r st) = Step-IsConsistent st (Reach-holds r)

-- In every control that calls of the methods reach from the empty one, where at most 65535 threads are
-- started and `clear` is called without threads only, each thread has a non-empty call stack, a
-- previous block and an id, and the ids rise along the list and stay below the next free one. A
-- `clear` with a thread breaks this.
pub Reach-IsConsistent :
    {c : Control} → Reach c → IsConsistent c × (0 < length c.context → ¬ IsConsistent (clear c))
Reach-IsConsistent {c} r = let v = Reach-holds r in (v, clear-misaligned c v)
