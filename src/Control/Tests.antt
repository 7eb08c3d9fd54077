-- ===== src/Control/Tests.antt =====
-- Runs of `Control` on small inputs, and the theorems about it at inputs that meet their hypotheses.
use sym_divine.Base.{length, ◌<◌, ◌≡◌, refl, [], ◌∷◌, arith, some, true, false, ◌>>=◌, Returns}
use sym_divine.Control.{
  Control, start_thread, enter_function, jump_to, leave, enter_atomic_section, leave_atomic_section,
  entry_pc, has_tid, clear, get_prev_pc, last, get_allowed_threads, thread_count,
}
use sym_divine.Control.Invariant.{IsConsistent}
use sym_divine.Control.Steps.{Reach, here, next, starts, Reach-IsConsistent}
use sym_divine.Control.Laws.{has_tid-leave, leave-enter_function, atomic_section_excludes}

abbrev one_thread : Control
one_thread = record {
  context = (entry_pc 7 ∷ []) ∷ [];
  previous_bb = entry_pc 0 ∷ [];
  tids = 0 ∷ [];
  atomic_section = [];
  next_free_tid = 1;
}

abbrev locked : Control
locked = record one_thread { atomic_section = 0 ∷ [] }

abbrev finished : Control
finished = record {
  context = [];
  previous_bb = [];
  tids = [];
  atomic_section = [];
  next_free_tid = 1;
}

one_thread-Reach : Reach one_thread
unfolding start_thread
one_thread-Reach = next here (starts 7 (omega arith) refl)

inner_frame : (enter_function one_thread 9 0 >>= λ d. get_prev_pc d 0) ≡ some (entry_pc 7)
unfolding enter_function get_prev_pc
inner_frame = refl

two_threads : get_allowed_threads (start_thread one_thread 3).0 ≡ 0 ∷ 1 ∷ []
unfolding start_thread get_allowed_threads
two_threads = refl

jump_remembers :
    (jump_to one_thread (entry_pc 8) 0 true >>= λ d. some d.previous_bb) ≡ some (entry_pc 7 ∷ [])
unfolding jump_to
jump_remembers = refl

last_frame : last one_thread 0 ≡ some true
unfolding last
last_frame = refl

Reach-IsConsistent_example :
    IsConsistent one_thread × (0 < length one_thread.context → ¬ IsConsistent (clear one_thread))
Reach-IsConsistent_example = Reach-IsConsistent one_thread-Reach

has_tid-leave_example : has_tid finished 0 ≡ false
unfolding leave
has_tid-leave_example = has_tid-leave {d = finished} 0 0 one_thread-Reach refl refl

leave-enter_function_example :
    (enter_function one_thread 9 0 >>= λ d. leave d 0) ≡ some (one_thread, false)
leave-enter_function_example =
    leave-enter_function one_thread 9 0 (entry_pc 7 ∷ []) refl (omega arith)

atomic_section_excludes_example :
    Returns
      (enter_atomic_section one_thread 0)
      λ d. (get_allowed_threads d ≡ 0 ∷ []) × (leave_atomic_section d 0 ≡ some one_thread)
unfolding thread_count
atomic_section_excludes_example = atomic_section_excludes one_thread 0 (omega arith) refl
