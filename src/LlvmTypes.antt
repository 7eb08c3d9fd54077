-- ===== src/LlvmTypes.antt =====
-- src/llvmsym/llvmdata.h and llvmdata.cpp: the widths of LLVM types. A type is the tree that the
-- methods of `llvm::Type` show; what a pointer points to is left out, since no width reads it.
-- `none` is a failed `assert` or an `abort`. The numbers of elements stay below the width of an `int`.
pub mod Widths
mod Tests
use sym_divine.Base.{ℕ, zero, suc, ◌+◌, ◌*◌, Option, none, some, List, [], ◌∷◌, ◌++◌, ◌>>=◌}

mutual
  pub data LlvmType : Type 0 where
    void_type : LlvmType
    integer_type : (bits : ℕ) → LlvmType
    pointer_type : LlvmType
    struct_type : LlvmTypes → LlvmType
    array_type : LlvmType → ℕ → LlvmType
    vector_type : LlvmType
    function_type : LlvmType
    other_type : LlvmType

  pub data LlvmTypes : Type 0 where
    nil : LlvmTypes
    cons : LlvmType → LlvmTypes → LlvmTypes

-- `PointerWidth`
abbrev pub pointer_width : ℕ
pointer_width = 64

unfoldable pub get_bit_width : LlvmType → Option ℕ
get_bit_width void_type = some 1
get_bit_width pointer_type = some pointer_width
get_bit_width (integer_type bits) = some bits
get_bit_width t = none

unfoldable mutual
  pub get_elements_width : LlvmType → Option ℕ
  get_elements_width void_type = some 1
  get_elements_width (integer_type bits) = some 1
  get_elements_width pointer_type = some 1
  get_elements_width (struct_type fields) = sum_widths fields
  get_elements_width (array_type element count) = do
    width ← get_elements_width element
    some (width * count)
  get_elements_width vector_type = none
  get_elements_width function_type = none
  get_elements_width other_type = none

  pub sum_widths : LlvmTypes → Option ℕ
  sum_widths nil = some 0
  sum_widths (cons t fields) = do
    width ← get_elements_width t
    rest ← sum_widths fields
    some (width + rest)

-- The loop over the elements of an array.
abbrev pub repeated {ℓ} : {A : Type ℓ} → ℕ → List A → List A
repeated zero xs = []
repeated (suc n) xs = xs ++ repeated n xs

unfoldable mutual
  unfolding get_bit_width

  pub get_primitive_type_widths : LlvmType → Option (List ℕ)
  get_primitive_type_widths void_type = do width ← get_bit_width void_type; some (width ∷ [])
  get_primitive_type_widths (integer_type bits) = do
    width ← get_bit_width (integer_type bits)
    some (width ∷ [])
  get_primitive_type_widths pointer_type = do width ← get_bit_width pointer_type; some (width ∷ [])
  get_primitive_type_widths (struct_type fields) = all_widths fields
  get_primitive_type_widths (array_type element count) = do
    widths ← get_primitive_type_widths element
    some (repeated count widths)
  get_primitive_type_widths vector_type = none
  get_primitive_type_widths function_type = none
  get_primitive_type_widths other_type = none

  pub all_widths : LlvmTypes → Option (List ℕ)
  all_widths nil = some []
  all_widths (cons t fields) = do
    widths ← get_primitive_type_widths t
    rest ← all_widths fields
    some (widths ++ rest)
