-- ===== src/Control.antt =====
-- `Control` of src/llvmsym/thread.h: the call stacks of the threads, the thread ids and the atomic
-- section. A `short unsigned` keeps its 16-bit wrap-around; `none` is a failed `assert` or an index
-- out of bounds. The program counters of a thread stand outermost frame first.
pub mod Invariant
pub mod Steps
pub mod Laws
mod Tests
use sym_divine.Base.{
  ℕ, zero, suc, ◌+◌, ◌-◌, ◌%◌, ◌^◌, ◌≡◌, Bool, true, false, ◌&&◌, ◌||◌, Option, none, some, List,
  [], ◌∷◌, ltb, ◌==◌, if◌then◌else◌, length, get_elem?, set, erase_at, replicate, back?, pop_back,
  push_back, ◌>>=◌, ◌>>◌, ensure,
}

-- `Control::PC`
pub record Pc : Type 0 where
  pub function : ℕ
  pub basicblock : ℕ
  pub instruction : ℕ

-- `PC()`
abbrev pub pc_zero : Pc
pc_zero = record { function = 0; basicblock = 0; instruction = 0 }

-- `PC::operator==`
unfoldable pub pc_eq : Pc → Pc → Bool
pc_eq a b =
    a.function == b.function && a.basicblock == b.basicblock && a.instruction == b.instruction

pub record Control : Type 0 where
  pub context : List (List Pc)
  pub previous_bb : List Pc
  pub tids : List ℕ
  pub atomic_section : List ℕ
  pub next_free_tid : ℕ

abbrev pub u16 : ℕ
u16 = 65536

unfoldable pub is_nil {ℓ} : {A : Type ℓ} → List A → Bool
is_nil [] = true
is_nil (x ∷ xs) = false

abbrev pub any_eq : ℕ → List ℕ → Bool
any_eq tid [] = false
any_eq tid (t ∷ ts) = if tid == t then true else any_eq tid ts

unfoldable pub has_tid : Control → ℕ → Bool
has_tid c tid = any_eq tid c.tids

unfoldable pub clear : Control → Control
clear c = record c { context = [] }

abbrev pub entry_pc : ℕ → Pc
entry_pc function_no = record { function = function_no; basicblock = 0; instruction = 0 }

-- The new control and the thread id.
unfoldable pub start_thread : Control → ℕ → Control × ℕ
start_thread c function_no = (
  record c {
    context = push_back c.context (entry_pc function_no ∷ []);
    previous_bb = push_back c.previous_bb pc_zero;
    tids = push_back c.tids c.next_free_tid;
    next_free_tid = (c.next_free_tid + 1) % u16;
  },
  c.next_free_tid,
)

unfoldable pub enter_function : Control → ℕ → ℕ → Option Control
enter_function c function_no tid = do
  stack ← get_elem? c.context tid
  some (record c { context = set c.context tid (push_back stack (entry_pc function_no)) })

unfoldable pub jump_to : Control → Pc → ℕ → Bool → Option Control
jump_to c new_pc tid remember_previous_bb = do
  stack ← get_elem? c.context tid
  top ← back? stack
  ensure (ltb tid (length c.previous_bb))
  some (record c {
    previous_bb = set c.previous_bb tid (if remember_previous_bb then top else pc_zero);
    context = set c.context tid (push_back (pop_back stack) new_pc);
  })

-- The tail of `leave`: what is done with the popped stack.
unfoldable pub leave_with : Control → ℕ → List Pc → Control × Bool
leave_with c tid [] = (
  record c {
    context = erase_at c.context tid;
    previous_bb = erase_at c.previous_bb tid;
    tids = erase_at c.tids tid;
  },
  true,
)
leave_with c tid (pc ∷ pcs) = (record c { context = set c.context tid (pc ∷ pcs) }, false)

-- The new control, and whether the thread ended.
unfoldable pub leave : Control → ℕ → Option (Control × Bool)
unfolding leave_with
leave c tid = do
  stack ← get_elem? c.context tid
  top ← back? stack
  some (leave_with c tid (pop_back stack))

unfoldable pub thread_count : Control → ℕ
thread_count c = length c.context

-- `advance( tid, relative )` for `relative = 1`, the default, and `relative = -1`.
unfoldable pub advance_by : Control → ℕ → ℕ → Option Control
advance_by c tid delta = do
  stack ← get_elem? c.context tid
  top ← back? stack
  some (record c {
    context =
        set c.context tid (
          push_back (pop_back stack)
            (record top { instruction = (top.instruction + delta) % u16 }));
  })

abbrev pub advance : Control → ℕ → Option Control
advance c tid = advance_by c tid 1

-- Adding -1 to a `short unsigned` adds 65535 modulo 65536.
abbrev pub step_back : Control → ℕ → Option Control
step_back c tid = advance_by c tid 65535

unfoldable pub get_pc : Control → ℕ → Option Pc
get_pc c tid = do stack ← get_elem? c.context tid; back? stack

unfoldable pub get_prev_pc : Control → ℕ → Option Pc
get_prev_pc c tid = do stack ← get_elem? c.context tid; back? (pop_back stack)

unfoldable pub last : Control → ℕ → Option Bool
last c tid = do stack ← get_elem? c.context tid; some (length stack == 1)

abbrev pub owned_by : Option ℕ → ℕ → Bool
owned_by none tid = true
owned_by (some owner) tid = owner == tid

unfoldable pub enter_atomic_section : Control → ℕ → Option Control
enter_atomic_section c tid = do
  ensure (ltb tid (length c.context))
  ensure (owned_by (back? c.atomic_section) tid)
  some (record c { atomic_section = push_back c.atomic_section tid })

unfoldable pub leave_atomic_section : Control → ℕ → Option Control
leave_atomic_section c tid = do
  owner ← back? c.atomic_section
  ensure (owner == tid)
  some (record c { atomic_section = pop_back c.atomic_section })

abbrev pub range : ℕ → ℕ → List ℕ
range start zero = []
range start (suc n) = start ∷ range (suc start) n

abbrev pub allowed : Option ℕ → ℕ → List ℕ
allowed none count = range 0 count
allowed (some owner) count = owner ∷ []

unfoldable pub get_allowed_threads : Control → List ℕ
get_allowed_threads c = allowed (back? c.atomic_section) (length c.context)
