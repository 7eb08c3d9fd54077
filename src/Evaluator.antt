-- ===== src/Evaluator.antt =====
-- The state of `Evaluator` of src/llvmsym/evaluator.h, and the program as it reads it. LLVM itself is
-- outside code: an instruction is a record of what the methods of the `llvm` classes give, and the
-- name of a called function is the demangled one. `none` is a failed `assert`, an `abort`, `die`, or an
-- access out of bounds. The symbolic store is a parameter with the methods of `DataStore`.
pub mod Frames
pub mod Values
pub mod Memory
pub mod Names
pub mod Calls
pub mod Branches
pub mod Dispatch
pub mod Search
pub mod Collected
pub mod Successors
pub mod Depths
pub mod Aligned
pub mod Tables
pub mod Segments
pub mod Preserved
pub mod Writes
pub mod Handlers
pub mod Jumps
pub mod Returns
pub mod Called
pub mod Steps
pub mod Executed
pub mod Exit
pub mod Lost
mod Tests
use sym_divine.Base.{
  ℕ, suc, Bool, true, false, Option, none, some, List, [], ◌∷◌, ◌==◌, ltb, leb, if◌then◌else◌,
  length, get_elem?, set, push_back, ◌>>=◌, ◌>>◌, ensure,
}
use sym_divine.Datastore
use sym_divine.Datastore.{Value, Comparison}
use sym_divine.LlvmTypes.{LlvmType}
use sym_divine.BaseSmtStore.{BinaryOp}
use sym_divine.Control
use sym_divine.Control.{Control, Pc}
use sym_divine.Layout
use sym_divine.Layout.{Layout}
use sym_divine.ExplicitStore
use sym_divine.ExplicitStore.{ValueStore}
use Prim.Native.String.{String}

-- An `llvm::Value` with what `deref` asks it: a constant integer, the null pointer, an undefined value, or
-- any other value, which has an address, the width of its type and whether the type is a pointer.
pub data Operand : Type 0 where
  constant_int : (value bw : ℕ) → Operand
  null_pointer : Operand
  undefined : (bw : ℕ) → (is_ptr : Bool) → Operand
  named : (address bw : ℕ) → (is_ptr : Bool) → Operand

abbrev pub operand_bw : Operand → ℕ
operand_bw (constant_int value bw) = bw
operand_bw null_pointer = 64
operand_bw (undefined bw is_ptr) = bw
operand_bw (named address bw is_ptr) = bw

abbrev pub operand_is_pointer : Operand → Bool
operand_is_pointer (constant_int value bw) = false
operand_is_pointer null_pointer = true
operand_is_pointer (undefined bw is_ptr) = is_ptr
operand_is_pointer (named address bw is_ptr) = is_ptr

abbrev pub is_undefined : Operand → Bool
is_undefined (undefined bw is_ptr) = true
is_undefined v = false

-- A successor of a block: where it stands, whether it starts with a phi, and whether its address is at
-- most that of the block that jumps.
pub record Target : Type 0 where
  pub place : Pc
  pub has_phi : Bool
  pub backward : Bool

pub data Cast : Type 0 where
  zext sext trunc : Cast

-- What a call calls, or what the third argument of `pthread_create` names: a declared function by its name, or a defined one by its number, whether directly or
-- through a cast.
pub data Callee : Type 0 where
  declared : String → Callee
  defined : (number : ℕ) → (direct : Bool) → Callee

-- The instructions, with the operands that their handlers read. `binary none` stands for FAdd, which the
-- dispatcher accepts and `do_binary_arithmetic_op` does not know.
pub data Operation : Type 0 where
  icmp : Comparison → Operand → Operand → Operation
  phi : List ((ℕ × ℕ) × Operand) → Operation
  cast : Cast → Operand → ℕ → Operation
  branch : Target → Operation
  conditional : Operand → Target → Target → Operation
  switch : Operand → List (Operand × Target) → Target → Operation
  call : Callee → Option Callee → List Operand → Operation
  ret : Option Operand → Operation
  load : Operand → Operation
  store : Operand → Operand → Operation
  alloca : Operand → LlvmType → Operation
  binary : Option BinaryOp → Operand → Operand → Operation
  gep : Operand → LlvmType → List Operand → Operation
  bitcast : Operation
  unreachable : Operation
  select : Operand → Operand → Operand → Operation
  ptrtoint : Operand → Operation
  inttoptr : Operand → Operation
  unknown : Operation

-- An instruction as a value, and the constant expressions among its operands in the order in which the
-- dispatcher executes them, each with its value.
pub record Instruction : Type 0 where
  pub result : Operand
  pub expressions : List (Operand × Operation)
  pub operation : Operation

-- A function: the addresses that `collectUsedValues` lists, their widths, its arguments and blocks.
pub record Function : Type 0 where
  pub name : String
  pub values : List ℕ
  pub bit_widths : List ℕ
  pub arguments : List Operand
  pub body : List (List Instruction)

-- The module: its functions by number, and the addresses of its globals.
pub record Program : Type 0 where
  pub functions : List Function
  pub globals : List ℕ

-- `Evaluator::State`, with the `current_frames` of the layout, each as its list of addresses, and the two
-- properties.
pub record State {ℓ} (D : Type ℓ) : Type ℓ where
  pub control : Control
  pub symbolic : D
  pub layout : Layout
  pub current_frames : List (List ℕ)
  pub explicit_data : ValueStore
  pub error : Bool
  pub empty : Bool

-- `valuemap`: an address that is listed twice has the index of its last occurrence.
abbrev pub or_here : Option ℕ → Bool → Option ℕ
or_here (some index) here = some (suc index)
or_here none true = some 0
or_here none false = none

abbrev pub index_of : ℕ → List ℕ → Option ℕ
index_of v [] = none
index_of v (x ∷ xs) = or_here (index_of v xs) (v == x)

-- `isMultival` and `setMultival` of a value
unfoldable pub is_multival : Layout → Value → Option Bool
is_multival l (Datastore.constant value bw pointer) = some false
is_multival l (Datastore.variable segment offset pointer) = Layout.is_multival l segment offset

unfoldable pub set_multival : Layout → Value → Bool → Option Layout
set_multival l (Datastore.constant value bw pointer) multival = none
set_multival l (Datastore.variable segment offset pointer) multival =
    Layout.set_multival l segment offset multival

-- `isSymbolicPointer` and `setSymbolicPointer` of a value
unfoldable pub is_symbolic_pointer : Layout → Value → Option Bool
is_symbolic_pointer l (Datastore.constant value bw pointer) = ensure pointer >> some false
is_symbolic_pointer l (Datastore.variable segment offset true) = some false
is_symbolic_pointer l (Datastore.variable segment offset false) =
    Layout.is_symbolic_pointer l segment offset

unfoldable pub set_symbolic_pointer : Layout → Value → Bool → Option Layout
set_symbolic_pointer l (Datastore.constant value bw pointer) symbolic = none
set_symbolic_pointer l (Datastore.variable segment offset pointer) symbolic =
    Layout.set_symbolic_pointer l segment offset symbolic

abbrev pub frame_range : Layout → ℕ → Bool → Option (ℕ × ℕ)
frame_range l tid true = Layout.prev_stack_segment_range l tid
frame_range l tid false = Layout.last_stack_segment_range l tid

-- The switch of the thread to a block, whose frame holds the values of its function.
unfoldable pub switch_bb : List (List ℕ) → List ℕ → ℕ → Option (List (List ℕ))
switch_bb frames frame tid = do
  ensure (leb tid (length frames))
  some (if tid == length frames then push_back frames frame else set frames tid frame)

-- `getBB`: the instructions of the block, and the frame of its function.
unfoldable pub get_bb : Program → Pc → Option (List Instruction × List ℕ)
get_bb program pc = do
  f ← get_elem? program.functions pc.function
  block ← get_elem? f.body pc.basicblock
  some (block, f.values)

unfoldable pub fetch_pc : Program → Pc → Option Instruction
unfolding get_bb
fetch_pc program pc = do (block, values) ← get_bb program pc; get_elem? block pc.instruction

abbrev pub read_value {ℓ} : {D : Type ℓ} → State D → Operand → Value → Bool → Option Value
read_value s v res true = some res
read_value s v res false = do
  value ← ExplicitStore.get s.explicit_data res
  some (Datastore.constant value (operand_bw v) (operand_is_pointer v))

module _ {ℓ} {D : Type ℓ} (program : Program) where
  abbrev pub variable_at : State D → ℕ → ℕ → Bool → Bool → Option ℕ → Option Value
  variable_at s address tid prev is_ptr (some index) = do
    (first, end) ← frame_range s.layout tid prev
    ensure (ltb 1 first)
    some (Datastore.variable first index is_ptr)
  variable_at s address tid prev is_ptr none = do
    index ← index_of address program.globals
    some (Datastore.variable 0 index is_ptr)

  -- `MemoryLayout::deref`
  unfoldable pub layout_deref : State D → Operand → ℕ → Bool → Option Value
  layout_deref s (constant_int value bw) tid prev = some (Datastore.constant value bw false)
  layout_deref s null_pointer tid prev = some (Datastore.constant 0 64 true)
  layout_deref s (undefined bw is_ptr) tid prev = some (Datastore.constant 0 bw is_ptr)
  layout_deref s (named address bw is_ptr) tid prev = do
    frame ← get_elem? s.current_frames tid
    variable_at s address tid prev is_ptr (index_of address frame)

  -- `deref( v, tid, true )`: an explicit value is read.
  unfoldable pub deref : State D → Operand → ℕ → Option Value
  unfolding layout_deref
  deref s v tid = do
    res ← layout_deref s v tid false
    multival ← is_multival s.layout res
    read_value s v res multival
