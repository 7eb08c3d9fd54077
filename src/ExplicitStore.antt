-- ===== src/ExplicitStore.antt =====
-- `ValueStore` of src/llvmsym/explicitstore.h: the variables that hold one number each, 64-bit cells with
-- a width and a flag for pointers. `none` is a failed `assert`, an access out of bounds, or what C++
-- leaves undefined (a division by zero, a shift by the width of the type). The widths are those of LLVM
-- types up to 64 bits, which the source's `char` holds as they are.
pub mod Comparisons
pub mod Bounds
pub mod Segments
pub mod Moves
pub mod Methods
pub mod Pointers
mod Tests
use sym_divine.Base.{
  [], ◌∷◌, ℕ, ◌+◌, ◌-◌, ◌*◌, ◌/◌, ◌%◌, ◌^◌, Bool, true, false, not, ◌||◌, ◌&&◌, Option, none, some,
  List, map, ltb, leb, ◌==◌, if◌then◌else◌, length, get_elem?, set, insert_at, erase_at, replicate,
  ◌>>=◌, ◌>>◌, ensure,
}
use sym_divine.Datastore.{
  Value, Value.variable, Value.constant, is_pointer, Comparison, Comparison.eq, Comparison.ne,
  Comparison.ugt, Comparison.uge, Comparison.ult, Comparison.ule, Comparison.sgt, Comparison.sge,
  Comparison.slt, Comparison.sle,
}
use sym_divine.Datastore.Words.{
  u64, lower_to_nbits, ℤ, ltz, lez, to_signed, from_signed, remz, ℤ.negsuc, ℤ.pos,
}
use Prim.Native.Nat.{bit_and, bit_or, bit_xor}

pub record VariableInfo : Type 0 where
  pub bw : ℕ
  pub is_pointer : Bool

pub record ValueStore : Type 0 where
  pub cells : List (List ℕ)
  pub info : List (List VariableInfo)
  pub empty : Bool

-- The cell of a vector of vectors, and the vector with the cell written.
abbrev pub cell {ℓ} : {A : Type ℓ} → List (List A) → ℕ → ℕ → Option A
cell rows segment offset = do row ← get_elem? rows segment; get_elem? row offset

abbrev pub with_cell {ℓ} : {A : Type ℓ} → List (List A) → ℕ → ℕ → A → Option (List (List A))
with_cell rows segment offset a = do
  row ← get_elem? rows segment
  _ ← get_elem? row offset
  some (set rows segment (set row offset a))

unfoldable pub get_bw : ValueStore → Value → Option ℕ
get_bw s (constant value bw pointer) = some bw
get_bw s (variable segment offset pointer) = do info ← cell s.info segment offset; some info.bw

unfoldable pub get : ValueStore → Value → Option ℕ
get s (constant value bw pointer) = some value
get s (variable segment offset pointer) = cell s.cells segment offset

-- `at( result ) = lower_to_nbits( what, getBw( result ) ); setPointerFlag( result, flag );`
unfoldable pub assign : ValueStore → Value → ℕ → Bool → Option ValueStore
assign s (constant value bw pointer) what flag = none
assign s (variable segment offset pointer) what flag = do
  info ← cell s.info segment offset
  written ← with_cell s.cells segment offset (lower_to_nbits what info.bw)
  infos ← with_cell s.info segment offset (record info { is_pointer = flag })
  some (record s { cells = written; info = infos })

-- The shape that the methods for two operands share.
unfoldable pub implement :
    (ℕ → ℕ → Option ℕ) → ValueStore → Value → Value → Value → Option ValueStore
implement op s result a b = do
  x ← get s a
  y ← get s b
  z ← op x y
  assign s result z (is_pointer a || is_pointer b)

abbrev pub add64 : ℕ → ℕ → Option ℕ
add64 x y = some ((x + y) % u64)

abbrev pub sub64 : ℕ → ℕ → Option ℕ
sub64 x y = some ((x + (u64 - y)) % u64)

abbrev pub mult64 : ℕ → ℕ → Option ℕ
mult64 x y = some (x * y % u64)

abbrev pub div64 : ℕ → ℕ → Option ℕ
div64 x y = ensure (not (y == 0)) >> some (x / y)

abbrev pub urem64 : ℕ → ℕ → Option ℕ
urem64 x y = ensure (not (y == 0)) >> some (x % y)

abbrev pub shl64 : ℕ → ℕ → Option ℕ
shl64 x y = ensure (ltb y 64) >> some (x * 2 ^ y % u64)

abbrev pub shr64 : ℕ → ℕ → Option ℕ
shr64 x y = ensure (ltb y 64) >> some (x / 2 ^ y)

abbrev pub and64 : ℕ → ℕ → Option ℕ
and64 x y = some (bit_and x y % u64)

abbrev pub or64 : ℕ → ℕ → Option ℕ
or64 x y = some (bit_or x y % u64)

abbrev pub xor64 : ℕ → ℕ → Option ℕ
xor64 x y = some (bit_xor x y % u64)

unfoldable pub implement_add : ValueStore → Value → Value → Value → Option ValueStore
implement_add = implement add64

unfoldable pub implement_sub : ValueStore → Value → Value → Value → Option ValueStore
implement_sub = implement sub64

unfoldable pub implement_mult : ValueStore → Value → Value → Value → Option ValueStore
implement_mult = implement mult64

unfoldable pub implement_div : ValueStore → Value → Value → Value → Option ValueStore
implement_div = implement div64

unfoldable pub implement_urem : ValueStore → Value → Value → Value → Option ValueStore
implement_urem = implement urem64

unfoldable pub implement_and : ValueStore → Value → Value → Value → Option ValueStore
implement_and = implement and64

unfoldable pub implement_or : ValueStore → Value → Value → Value → Option ValueStore
implement_or = implement or64

unfoldable pub implement_xor : ValueStore → Value → Value → Value → Option ValueStore
implement_xor = implement xor64

unfoldable pub implement_left_shift : ValueStore → Value → Value → Value → Option ValueStore
implement_left_shift = implement shl64

unfoldable pub implement_right_shift : ValueStore → Value → Value → Value → Option ValueStore
implement_right_shift = implement shr64

-- The widths that have a signed type.
abbrev pub castable : ℕ → Bool
castable bw = bw == 64 || bw == 32 || bw == 16 || bw == 8

-- The smallest `int32_t` or `int64_t` by −1, whose quotient the type cannot hold, is undefined.
abbrev pub overflows : ℕ → ℤ → ℤ → Bool
overflows bw (negsuc a) (negsuc b) = leb 32 bw && a == 2 ^ (bw - 1) - 1 && b == 0
overflows bw a b = false

abbrev pub srem64 : ℕ → ℕ → ℕ → Option ℕ
srem64 bw x y = do
  ensure (castable bw)
  ensure (not (overflows bw (to_signed bw x) (to_signed bw y)))
  z ← remz (to_signed bw x) (to_signed bw y)
  some (from_signed z)

unfoldable pub implement_srem : ValueStore → Value → Value → Value → Option ValueStore
implement_srem s result a b = do bw ← get_bw s a; implement (srem64 bw) s result a b

unfoldable pub implement_store : ValueStore → Value → Value → Option ValueStore
implement_store s result what = do x ← get s what; assign s result x (is_pointer what)

unfoldable pub signed : (ℤ → ℤ → Bool) → ℕ → ℕ → ℕ → Option Bool
signed test bw x y = ensure (castable bw) >> some (test (to_signed bw x) (to_signed bw y))

-- The test of `prune`.
unfoldable pub holds : Comparison → ℕ → ℕ → ℕ → Option Bool
unfolding signed
holds eq bw x y = some (x == y)
holds ne bw x y = some (not (x == y))
holds ugt bw x y = some (ltb y x)
holds uge bw x y = some (leb y x)
holds ult bw x y = some (ltb x y)
holds ule bw x y = some (leb x y)
holds sgt bw x y = signed (λ p q. ltz q p) bw x y
holds sge bw x y = signed (λ p q. lez q p) bw x y
holds slt bw x y = signed ltz bw x y
holds sle bw x y = signed lez bw x y

unfoldable pub prune : ValueStore → Value → Value → Comparison → Option ValueStore
prune s a b op = do
  bw_a ← get_bw s a
  bw_b ← get_bw s b
  ensure (bw_a == bw_b)
  x ← get s a
  y ← get s b
  h ← holds op bw_a x y
  some (record s { empty = s.empty || not h })

unfoldable pub add_segment : ValueStore → ℕ → List ℕ → Option ValueStore
add_segment s id bit_widths = do
  ensure (leb id (length s.cells))
  ensure (leb id (length s.info))
  some (record s {
    cells = insert_at s.cells id (replicate (length bit_widths) 0);
    info = insert_at s.info id (map (λ bw. record { bw = bw; is_pointer = false }) bit_widths);
  })

unfoldable pub erase_segment : ValueStore → ℕ → Option ValueStore
erase_segment s id = do
  ensure (ltb id (length s.cells))
  ensure (ltb id (length s.info))
  some (record s { cells = erase_at s.cells id; info = erase_at s.info id })

unfoldable pub clear : ValueStore → ValueStore
clear s = record s { cells = []; info = [] }

-- `Pointer`: the segment in the high 32 bits of the word, the offset in the low 32.
pub record Pointer : Type 0 where
  pub segment : ℕ
  pub offset : ℕ

abbrev pub u32 : ℕ
u32 = 2 ^ 32

unfoldable pub to_pointer : ℕ → Pointer
to_pointer i = record { segment = i / u32; offset = i % u32 }

-- The two halves have no bit in common, so that `|` is their sum.
unfoldable pub from_pointer : Pointer → ℕ
from_pointer p = p.segment % u32 * u32 + p.offset % u32

-- A negative count is the word that stands for it.
unfoldable pub moved : ℕ → ℕ → ℕ → ℕ
moved from count segment = if ltb from segment then (segment + count) % u32 else segment

unfoldable pub moved_pointer : ℕ → ℕ → Pointer → ℕ → ℕ
unfolding moved
moved_pointer from count p word =
    if ltb from p.segment
    then from_pointer (record p { segment = moved from count p.segment })
    else word

unfoldable pub moved_cell : ℕ → ℕ → ℕ → ℕ
moved_cell from count word = moved_pointer from count (to_pointer word) word

-- The cells of a segment, the pointers among them moved.
abbrev pub moved_row : ℕ → ℕ → List ℕ → List VariableInfo → List ℕ
moved_row from count (word ∷ row) (i ∷ infos) =
    let rest : List ℕ = moved_row from count row infos in
    (if i.is_pointer then moved_cell from count word else word) ∷ rest
moved_row from count row infos = row

abbrev pub moved_rows : ℕ → ℕ → List (List ℕ) → List (List VariableInfo) → List (List ℕ)
moved_rows from count (row ∷ rows) (infos ∷ info) =
    moved_row from count row infos ∷ moved_rows from count rows info
moved_rows from count rows info = rows

unfoldable pub move_pointers : ValueStore → ℕ → ℕ → ValueStore
move_pointers s from count = record s { cells = moved_rows from count s.cells s.info }

unfoldable pub implement_pointer_store : ValueStore → Value → Pointer → Option ValueStore
implement_pointer_store s result what =
    implement_store s result (constant (from_pointer what) 64 true)
