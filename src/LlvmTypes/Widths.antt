-- ===== src/LlvmTypes/Widths.antt =====
-- The two ways in which src/llvmsym/llvmdata.cpp measures a type agree.
use sym_divine.Base.{
  ℕ, zero, suc, ◌+◌, ◌*◌, ◌≡◌, refl, Option, none, some, List, ◌++◌, ◌>>=◌, length, length-append,
  arith,
}
use sym_divine.LlvmTypes.{
  LlvmType, LlvmTypes, void_type, integer_type, pointer_type, struct_type, array_type, vector_type,
  function_type, other_type, nil, cons, get_bit_width, get_elements_width, sum_widths, repeated,
  get_primitive_type_widths, all_widths,
}

abbrev pub counted : Option (List ℕ) → Option ℕ
counted none = none
counted (some widths) = some (length widths)

length-repeated {ℓ} : {A : Type ℓ} (n : ℕ) (xs : List A) → length (repeated n xs) ≡ length xs * n
length-repeated zero xs = omega arith
length-repeated (suc n) xs =
    let rest = length-repeated n xs in let both = length-append xs (repeated n xs) in grind arith

array_counted :
    (count : ℕ) (widths : Option (List ℕ)) (width : Option ℕ)
    → counted widths ≡ width
    → counted (widths >>= λ ws. some (repeated count ws)) ≡ (width >>= λ w. some (w * count))
array_counted count none width e = rw (← e) refl
array_counted count (some ws) width e = rw (← e, length-repeated count ws) refl

cons_counted :
    (widths rest : Option (List ℕ)) (width sum : Option ℕ)
    → counted widths ≡ width
    → counted rest ≡ sum
    → counted (widths >>= λ ws. rest >>= λ vs. some (ws ++ vs))
      ≡ (width >>= λ w. sum >>= λ v. some (w + v))
cons_counted none rest width sum e f = rw (← e) refl
cons_counted (some ws) none width sum e f = rw (← e, ← f) refl
cons_counted (some ws) (some vs) width sum e f = rw (← e, ← f, length-append ws vs) refl

mutual
  unfolding get_bit_width get_elements_width sum_widths get_primitive_type_widths all_widths

  counted_type : (t : LlvmType) → counted (get_primitive_type_widths t) ≡ get_elements_width t
  counted_type void_type = refl
  counted_type (integer_type bits) = refl
  counted_type pointer_type = refl
  counted_type (struct_type fields) = counted_types fields
  counted_type (array_type element count) =
      array_counted count (get_primitive_type_widths element) (get_elements_width element)
        (counted_type element)
  counted_type vector_type = refl
  counted_type function_type = refl
  counted_type other_type = refl

  counted_types : (fields : LlvmTypes) → counted (all_widths fields) ≡ sum_widths fields
  counted_types nil = refl
  counted_types (cons t fields) =
      cons_counted (get_primitive_type_widths t) (all_widths fields) (get_elements_width t)
        (sum_widths fields) (counted_type t) (counted_types fields)

-- `getPrimitiveTypeWidths` gives as many widths as `getElementsWidth` counts, and one of them aborts
-- exactly when the other does: the cells that `alloca` makes are those that `getelementptr` counts.
pub get_primitive_type_widths-get_elements_width :
    (t : LlvmType) → counted (get_primitive_type_widths t) ≡ get_elements_width t
get_primitive_type_widths-get_elements_width t = counted_type t
