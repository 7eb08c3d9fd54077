-- ===== src/Evaluator/Tests.antt =====
-- A program of one function, which is a cast and a return, run with the explicit store in the place of the
-- symbolic one.
use sym_divine.Base.{
  All, Returns, arith, Bool, ℕ, ◌≡◌, refl, sym, true, false, Option, none, some, List, [], ◌∷◌,
  length, ◌↔◌, never,
}
use mathlib.Core.List.{Memᴰ}
use sym_divine.Control
use sym_divine.Control.{Control, Pc, pc_zero}
use sym_divine.Layout
use sym_divine.Layout.{Layout}
use sym_divine.ExplicitStore
use sym_divine.ExplicitStore.{ValueStore}
use sym_divine.Stores.{explicit_store}
use sym_divine.Stores.Laws.{KeepsSegments}
use sym_divine.Evaluator.{
  undefined, Operation, bitcast, ret, Instruction, Program, State, switch_bb, get_bb, fetch_pc,
  call, declared, unreachable,
}
use sym_divine.Evaluator.Frames
use sym_divine.Evaluator.Values.{Yield}
use sym_divine.Evaluator.Names.{
  builtin_of, debug_call, thread_exit_call, is_function_assume, is_function_input,
  is_atomic_function,
}
use sym_divine.Evaluator.Calls
use sym_divine.Evaluator.Calls.{Outcome}
use sym_divine.Evaluator.Executed.{step-AllAligned}
use sym_divine.Evaluator.Branches
use sym_divine.Evaluator.Dispatch
use sym_divine.Evaluator.Search
use sym_divine.Evaluator.Search.{Progress}
use sym_divine.Evaluator.Exit.{do_builtin-thread_exit}
use sym_divine.Evaluator.Lost.{IsStuck, loop-IsStuck, debug_call-Sees}
use sym_divine.Evaluator.Aligned.{
  implement_store-SameRows, explicit_binary-SameRows, prune-SameRows,
}
use sym_divine.Evaluator.Segments.{add_segment-Longer, erase_segment-Longer}
use sym_divine.Evaluator.Preserved.{IsAligned, leave-IsAligned}
use sym_divine.Evaluator.Successors.{Sees, SeesInTurn, advance-Sees}

abbrev rows : ValueStore → ℕ
rows s = length s.cells

explicit_store-KeepsSegments : KeepsSegments explicit_store rows
explicit_store-KeepsSegments = record {
  binary = λ op s r a b t e. (explicit_binary-SameRows op s r a b t e).cells;
  zext = λ s r a bw t e. (implement_store-SameRows s r a t e).cells;
  sext = λ s r a bw t e. (implement_store-SameRows s r a t e).cells;
  trunc = λ s r a bw t e. (implement_store-SameRows s r a t e).cells;
  stored = λ s r a t e. (implement_store-SameRows s r a t e).cells;
  inttoptr = λ s r a t e. (implement_store-SameRows s r a t e).cells;
  ptrtoint = λ s r a t e. (implement_store-SameRows s r a t e).cells;
  pruned = λ s a b op t e. (prune-SameRows s a b op t e).cells;
  input = λ s r bw. never (λ t. rows t ≡ rows s);
  added = λ s id widths t e. (add_segment-Longer s id widths t e).0;
  erased = λ s id t e. sym (erase_segment-Longer s id t e).0;
}

abbrev plain : Operation → Instruction
plain operation = record { result = undefined 32 false; expressions = []; operation = operation }

abbrev program : Program
program = record {
  functions =
      record {
        name = "main";
        values = 5 ∷ [];
        bit_widths = 32 ∷ [];
        arguments = [];
        body = (plain bitcast ∷ plain (ret none) ∷ []) ∷ [];
      }
      ∷ [];
  globals = [];
}

abbrev store : ValueStore
store = record {
  cells = [] ∷ [] ∷ (7 ∷ []) ∷ [];
  info = [] ∷ [] ∷ (record { bw = 32; is_pointer = false } ∷ []) ∷ [];
  empty = false;
}

abbrev start : State ValueStore
start = record {
  control = record {
    context = (pc_zero ∷ []) ∷ [];
    previous_bb = pc_zero ∷ [];
    tids = 0 ∷ [];
    atomic_section = [];
    next_free_tid = 1;
  };
  symbolic = store;
  layout = record {
    thread_segments = (2 ∷ []) ∷ [];
    segments_in_stack = (1 ∷ []) ∷ [];
    segments_to_tid = 65535 ∷ 65535 ∷ 0 ∷ [];
    variables_flags = [] ∷ [] ∷ (1 ∷ []) ∷ [];
  };
  current_frames = (5 ∷ []) ∷ [];
  explicit_data = store;
  error = false;
  empty = false;
}

start-IsAligned : IsAligned rows start
start-IsAligned = record {
  segments = record { cells = refl; info = refl; symbols = refl; flags = refl };
  frames = refl;
}

abbrev or_start : Option (State ValueStore) → State ValueStore
or_start none = start
or_start (some s) = s

abbrev called : State ValueStore
unfolding Frames.enter_function
called = or_start (Frames.enter_function explicit_store program start 0 0)

called-start : Frames.enter_function explicit_store program start 0 0 ≡ some called
unfolding Frames.enter_function Frames.add_segment Frames.switch_to Control.enter_function
    Control.get_pc Layout.new_stack Layout.new_segment Layout.wanted_sid
    Layout.last_stack_segment_range Layout.add_segment ExplicitStore.add_segment
    ExplicitStore.move_pointers switch_bb get_bb
called-start = refl

abbrev or_empty : Option (Outcome ValueStore) → Outcome ValueStore
or_empty none = ([], start)
or_empty (some o) = o

abbrev stepped : Outcome ValueStore
stepped = or_empty (Dispatch.step explicit_store program start 0 false)

stepped-start : Dispatch.step explicit_store program start 0 false ≡ some stepped
unfolding Dispatch.step Dispatch.execute Dispatch.evaluate_all Dispatch.dispatch
    Dispatch.forget_block Dispatch.effect_all Calls.once Control.get_pc Control.advance_by get_bb
    fetch_pc
stepped-start = refl

bitcast_first : fetch_pc program pc_zero ≡ some (plain bitcast)
unfolding fetch_pc get_bb
bitcast_first = refl

pc_at_start : Control.get_pc start.control 0 ≡ some pc_zero
unfolding Control.get_pc
pc_at_start = refl

step-AllAligned_example : All (λ y. IsAligned rows y.state) stepped.0 × IsAligned rows stepped.1
step-AllAligned_example =
    step-AllAligned explicit_store rows explicit_store-KeepsSegments program start 0 pc_zero
      (plain bitcast) false start-IsAligned pc_at_start bitcast_first refl stepped stepped-start

abbrev returned : State ValueStore
returned = or_start (Frames.leave explicit_store program called 0)

returned-called : Frames.leave explicit_store program called 0 ≡ some returned
unfolding called Control.enter_function Layout.new_stack Layout.new_segment Layout.wanted_sid
    ExplicitStore.add_segment Layout.add_segment Frames.leave Frames.erase_segments Frames.back_to
    Frames.switch_to Control.last Control.leave Control.leave_with Control.get_pc Layout.leave
    Layout.drop_last_stack Layout.drop_thread Layout.last_stack_segment_range Layout.erase_segment
    ExplicitStore.erase_segment ExplicitStore.move_pointers switch_bb get_bb
returned-called = refl

called-IsAligned : IsAligned rows called
unfolding called Control.enter_function Layout.new_stack Layout.new_segment Layout.wanted_sid
    Layout.last_stack_segment_range ExplicitStore.add_segment Layout.add_segment Control.get_pc
    get_bb switch_bb ExplicitStore.move_pointers
called-IsAligned = record {
  segments = record { cells = refl; info = refl; symbols = refl; flags = refl };
  frames = refl;
}

leave-IsAligned_example : IsAligned rows returned
leave-IsAligned_example =
    leave-IsAligned explicit_store rows explicit_store-KeepsSegments program called 0
      called-IsAligned returned returned-called

abbrev or_nil : Option (List (State ValueStore) × Bool) → List (State ValueStore)
or_nil none = []
or_nil (some r) = r.0

abbrev found : List (State ValueStore)
found = or_nil (Search.advance explicit_store program 3 start)

-- The search ends in three rounds.
found-start : Search.advance explicit_store program 3 start ≡ some (found, true)
unfolding Search.advance Search.advance_threads Search.loop Search.turn Search.round Search.collect
    Dispatch.step Dispatch.execute Dispatch.evaluate_all Dispatch.dispatch Dispatch.forget_block
    Dispatch.effect_all Calls.once Branches.do_return Frames.leave Frames.erase_segments
    Frames.back_to Control.last Control.leave Control.leave_with Control.get_pc Control.advance_by
    Control.get_allowed_threads Layout.leave Layout.drop_last_stack Layout.drop_thread
    Layout.last_stack_segment_range Layout.erase_segment ExplicitStore.erase_segment
    ExplicitStore.move_pointers get_bb fetch_pc is_atomic_function
found-start = refl

one_found : length found ≡ 1
unfolding Search.advance Search.advance_threads Search.loop Search.turn Search.round Search.collect
    Dispatch.step Dispatch.execute Dispatch.evaluate_all Dispatch.dispatch Dispatch.forget_block
    Dispatch.effect_all Calls.once Branches.do_return Frames.leave Frames.erase_segments
    Frames.back_to Control.last Control.leave Control.leave_with Control.get_pc Control.advance_by
    Control.get_allowed_threads Layout.leave Layout.drop_last_stack Layout.drop_thread
    Layout.last_stack_segment_range Layout.erase_segment ExplicitStore.erase_segment
    ExplicitStore.move_pointers get_bb fetch_pc is_atomic_function
one_found = refl

advance-Sees_example :
    Memᴰ start found
    ↔ SeesInTurn explicit_store program 3 [] (Control.get_allowed_threads start.control) start start
advance-Sees_example = advance-Sees explicit_store program 3 start start found found-start

do_builtin-thread_exit_example :
    Returns
      (Calls.do_builtin explicit_store program thread_exit_call start start
        (undefined 32 false)
        0
        none
        [])
      λ o.
        (y : Yield ValueStore) × (o.0 ≡ y ∷ [])
        × (y.state.control.context ≡ [])
        × (y.state.layout ≡ start.layout)
        × (¬ IsAligned rows y.state)
do_builtin-thread_exit_example =
    do_builtin-thread_exit explicit_store program rows start start (undefined 32 false) 0 none []
      pc_zero [] start-IsAligned refl

-- Programs that start with a call of `llvm.dbg.declare`, and with `unreachable`.
abbrev only : Operation → Program
only operation = record {
  functions =
      record {
        name = "main";
        values = [];
        bit_widths = [];
        arguments = [];
        body = (plain operation ∷ []) ∷ [];
      }
      ∷ [];
  globals = [];
}

abbrev declare : Operation
declare = call (declared "llvm.dbg.declare") none []

first_of : (operation : Operation) → fetch_pc (only operation) pc_zero ≡ some (plain operation)
unfolding fetch_pc get_bb
first_of operation = refl

declare-debug_call : builtin_of "llvm.dbg.declare" ≡ debug_call
unfolding builtin_of is_function_assume is_function_input
declare-debug_call = refl

debug_call-Sees_example : ¬ Sees explicit_store (only declare) 0 start start
debug_call-Sees_example =
    debug_call-Sees explicit_store (only declare) 0 start start pc_zero (undefined 32 false) []
      "llvm.dbg.declare" none [] pc_at_start (first_of declare) declare-debug_call refl

abbrev searched : Progress ValueStore
searched = record { state = start; found = record { yielded = []; to_do = start ∷ [] } }

start-IsStuck : IsStuck (only unreachable) 0 start
start-IsStuck = record {
  pc = pc_zero;
  result = undefined 32 false;
  at_pc = pc_at_start;
  fetched = first_of unreachable;
  fine = refl;
  known = omega arith;
}

loop-IsStuck_example :
    Returns
      (Search.loop explicit_store (only unreachable) 9 0 searched)
      λ r. (r.1 ≡ false) × (r.0.found.yielded ≡ [])
loop-IsStuck_example =
    loop-IsStuck explicit_store (only unreachable) 0 9 searched start [] refl start-IsStuck
