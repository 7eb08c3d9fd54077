-- ===== src/LlvmTypes/Tests.antt =====
-- The widths of a structure with an array in it.
use sym_divine.Base.{◌≡◌, refl, some}
use sym_divine.LlvmTypes.{
  LlvmType, struct_type, array_type, integer_type, pointer_type, nil, cons,
  get_primitive_type_widths, get_elements_width,
}
use sym_divine.LlvmTypes.Widths.{counted, get_primitive_type_widths-get_elements_width}

abbrev pair_of_bytes : LlvmType
pair_of_bytes = struct_type (cons (array_type (integer_type 8) 2) (cons pointer_type nil))

get_primitive_type_widths-get_elements_width_example :
    counted (get_primitive_type_widths pair_of_bytes) ≡ get_elements_width pair_of_bytes
get_primitive_type_widths-get_elements_width_example =
    get_primitive_type_widths-get_elements_width pair_of_bytes

pair_has_three : get_elements_width pair_of_bytes ≡ some 3
unfolding get_elements_width
pair_has_three = refl
