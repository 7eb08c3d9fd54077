-- ===== src/Layout.antt =====
-- `MemoryLayout` of src/llvmsym/memorylayout.h and memorylayout.cpp: which segments belong to which
-- thread and stack frame, and the flags of the variables. A `short unsigned` keeps its 16-bit
-- wrap-around; `none` is a failed `assert` or an access out of bounds. The maps from LLVM values to
-- offsets (`Frame`, `global_valuemap`, `deref`) are in Evaluator.
pub mod NewSegment
pub mod Flags
mod Tests
use sym_divine.Base.{
  ℕ, zero, suc, ◌+◌, ◌-◌, ◌*◌, ◌/◌, ◌%◌, Bool, true, false, Option, none, some, List, [], ◌∷◌, ◌++◌,
  map, ltb, leb, ◌==◌, if◌then◌else◌, length, get_elem?, set, take, drop, erase_at, insert_at,
  replicate, back?, pop_back, push_back, ◌>>=◌, ◌>>◌, ensure,
}

pub record Layout : Type 0 where
  pub thread_segments : List (List ℕ)
  pub segments_in_stack : List (List ℕ)
  pub segments_to_tid : List ℕ
  pub variables_flags : List (List ℕ)

abbrev pub u16 : ℕ
u16 = 65536

-- Two entries for the segments of the globals; the flags stay.
unfoldable pub clear : Layout → Layout
clear l = record l {
  thread_segments = [];
  segments_in_stack = [];
  segments_to_tid = 65535 ∷ 65535 ∷ [];
}

-- `F_DEFAULT` is `F_MULTIVAL`, bit 0; `F_SYMPOINTER` is bit 1.
abbrev pub f_default : ℕ
f_default = 1

unfoldable pub add_segment : Layout → ℕ → List ℕ → Option Layout
add_segment l sid bws = do
  ensure (leb sid (length l.variables_flags))
  some (record l {
    variables_flags = insert_at l.variables_flags sid (replicate (length bws) f_default);
  })

unfoldable pub erase_segment : Layout → ℕ → Option Layout
erase_segment l sid = do
  ensure (ltb sid (length l.variables_flags))
  some (record l { variables_flags = erase_at l.variables_flags sid })

abbrev pub flags_of : Layout → ℕ → ℕ → Option ℕ
flags_of l seg off = do segment ← get_elem? l.variables_flags seg; get_elem? segment off

abbrev pub with_flags : Layout → ℕ → ℕ → ℕ → Option Layout
with_flags l seg off flags = do
  segment ← get_elem? l.variables_flags seg
  some (record l { variables_flags = set l.variables_flags seg (set segment off flags) })

-- `isMultival` of a variable
unfoldable pub is_multival : Layout → ℕ → ℕ → Option Bool
is_multival l seg off = do flags ← flags_of l seg off; some (flags % 2 == 1)

unfoldable pub set_multival : Layout → ℕ → ℕ → Bool → Option Layout
set_multival l seg off value = do
  flags ← flags_of l seg off
  with_flags l seg off (if value then flags - flags % 2 + 1 else flags - flags % 2)

-- `isSymbolicPointer` of a variable that is no pointer
unfoldable pub is_symbolic_pointer : Layout → ℕ → ℕ → Option Bool
is_symbolic_pointer l seg off = do flags ← flags_of l seg off; some (flags / 2 % 2 == 1)

unfoldable pub set_symbolic_pointer : Layout → ℕ → ℕ → Bool → Option Layout
set_symbolic_pointer l seg off value = do
  flags ← flags_of l seg off
  with_flags l seg off (if value then flags - flags / 2 % 2 * 2 + 2 else flags - flags / 2 % 2 * 2)

-- The id that a new segment of the thread gets.
unfoldable pub wanted_sid : List (List ℕ) → ℕ → List ℕ → Option ℕ
wanted_sid threads zero [] = some 2
wanted_sid threads (suc tid) [] = do
  before ← get_elem? threads tid
  last ← back? before
  some (last + 1)
wanted_sid threads tid (s ∷ segments) = do last ← back? (s ∷ segments); some (last + 1)

abbrev pub bump : ℕ → ℕ
bump sid = (sid + 1) % u16

-- `++sid` for every segment of the threads after `tid`
abbrev pub bump_after : ℕ → List (List ℕ) → List (List ℕ)
bump_after tid [] = []
bump_after zero (segments ∷ threads) = segments ∷ map (map bump) threads
bump_after (suc tid) (segments ∷ threads) = segments ∷ bump_after tid threads

-- The new layout and the id of the new segment.
unfoldable pub new_segment : Layout → ℕ → Option (Layout × ℕ)
new_segment l tid = do
  segments ← get_elem? l.thread_segments tid
  wanted ← wanted_sid l.thread_segments tid segments
  ensure (ltb 1 wanted)
  ensure (leb wanted (length l.segments_to_tid))
  stack ← get_elem? l.segments_in_stack tid
  count ← back? stack
  some (
    record l {
      segments_to_tid = insert_at l.segments_to_tid wanted tid;
      thread_segments =
          bump_after tid (set l.thread_segments tid (push_back segments (wanted % u16)));
      segments_in_stack =
          set l.segments_in_stack tid (push_back (pop_back stack) ((count + 1) % u16));
    },
    wanted,
  )

unfoldable pub new_stack : Layout → ℕ → Option Layout
new_stack l tid = do
  stack ← get_elem? l.segments_in_stack tid
  some (record l { segments_in_stack = set l.segments_in_stack tid (push_back stack 0) })

unfoldable pub start_thread : Layout → Option (Layout × ℕ)
start_thread l =
    let grown : Layout = record l {
      thread_segments = push_back l.thread_segments [];
      segments_in_stack = push_back l.segments_in_stack [];
    } in
    do
      stacked ← new_stack grown (length l.thread_segments)
      new_segment stacked (length l.thread_segments)

-- `getLastStackSegmentRange( tid )`: the segments of the innermost frame, the end excluded.
unfoldable pub last_stack_segment_range : Layout → ℕ → Option (ℕ × ℕ)
last_stack_segment_range l tid = do
  segments ← get_elem? l.thread_segments tid
  last ← back? segments
  stack ← get_elem? l.segments_in_stack tid
  count ← back? stack
  ensure (leb count last)
  ensure (ltb 0 count)
  some (last - count + 1, last + 1)

-- The same with `prev`: the segments of the caller's frame.
unfoldable pub prev_stack_segment_range : Layout → ℕ → Option (ℕ × ℕ)
prev_stack_segment_range l tid = do
  segments ← get_elem? l.thread_segments tid
  stack ← get_elem? l.segments_in_stack tid
  count ← back? stack
  ensure (ltb count (length segments))
  last ← get_elem? segments (length segments - 1 - count)
  caller ← back? (pop_back stack)
  top ← back? segments
  ensure (leb last top)
  ensure (leb caller last)
  ensure (ltb 0 caller)
  some (last - caller + 1, last + 1)

abbrev pub lower : ℕ → ℕ → ℕ → ℕ
lower end width s = if leb end s then s - width else s

abbrev pub lower_tid : ℕ → ℕ → ℕ
lower_tid tid t = if ltb tid t then t - 1 else t

-- The last part of `dropLastStack`: the thread ends if it has no segment left.
unfoldable pub drop_thread : Layout → ℕ → List ℕ → List ℕ → Option Layout
drop_thread l tid [] stack = do
  ensure (length stack == 1)
  some (record l {
    thread_segments = erase_at l.thread_segments tid;
    segments_in_stack = erase_at l.segments_in_stack tid;
    segments_to_tid = map (lower_tid tid) l.segments_to_tid;
  })
drop_thread l tid (s ∷ segments) stack = do
  ensure (ltb 1 (length stack))
  some (record l {
    thread_segments = set l.thread_segments tid (s ∷ segments);
    segments_in_stack = set l.segments_in_stack tid (pop_back stack);
  })

unfoldable pub drop_last_stack : Layout → ℕ → Option Layout
unfolding drop_thread last_stack_segment_range
drop_last_stack l tid = do
  (first, end) ← last_stack_segment_range l tid
  let lowered : List (List ℕ) = map (map (lower end (end - first))) l.thread_segments
  segments ← get_elem? lowered tid
  stack ← get_elem? l.segments_in_stack tid
  ensure (leb (end - first) (length segments))
  drop_thread
      (record l {
        thread_segments = lowered;
        segments_to_tid = take first l.segments_to_tid ++ drop end l.segments_to_tid;
      })
      tid (take (length segments - (end - first)) segments) stack

unfoldable pub leave : Layout → ℕ → Option Layout
unfolding drop_last_stack
leave l tid = do
  segments ← get_elem? l.thread_segments tid
  ensure (ltb 0 (length segments))
  drop_last_stack l tid
