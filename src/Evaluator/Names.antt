-- ===== src/Evaluator/Names.antt =====
-- How src/llvmsym/evaluator.h and llvmdata.h tell the functions apart that the program declares and does not
-- define: by their demangled names.
use Prim.Native.Char.{code}
use Prim.Native.String.{String}
use text.Mathlib.Text.{◌==◌ as ◌=s=◌}
use sym_divine.Base.{ℕ, Bool, true, false, ◌||◌, ◌&&◌, List, [], ◌∷◌, ◌==◌, if◌then◌else◌}

-- The bytes of a name.
abbrev pub codes : String → List ℕ
codes String.[] = []
codes (String.◌∷◌ c s) = code c ∷ codes s

abbrev pub has_prefix : List ℕ → List ℕ → Bool
has_prefix [] name = true
has_prefix (c ∷ cs) [] = false
has_prefix (c ∷ cs) (d ∷ name) = c == d && has_prefix cs name

unfoldable pub is_atomic_function : String → Bool
is_atomic_function name = has_prefix (codes "__VERIFIER_atomic_") (codes name)

unfoldable pub is_function_assume : String → Bool
is_function_assume name = name =s= "assume" || name =s= "__VERIFIER_assume"

unfoldable pub is_function_input : String → Bool
is_function_input name =
    name =s= "input"
    || name =s= "nondet_int"
    || has_prefix (codes "__VERIFIER_nondet_") (codes name)

abbrev pub ignored_functions : List String
ignored_functions =
    "llvm.lifetime.start" ∷ "llvm.lifetime.end" ∷ "printf" ∷ "puts" ∷ "fprintf"
    ∷ "pthread_mutex_destroy" ∷ "pthread_mutex_init" ∷ "llvm.stacksave" ∷ "llvm.stackrestore" ∷ []

abbrev pub any_equal : String → List String → Bool
any_equal name [] = false
any_equal name (x ∷ xs) = name =s= x || any_equal name xs

-- The branches of `do_call` for a function without a body.
pub data Builtin : Type 0 where
  ignored_call input_call assume_call create_call join_call exit_call thread_exit_call assert_call
        error_call lock_call unlock_call atomic_begin_call atomic_end_call debug_call unknown_call :
      Builtin

unfoldable pub builtin_of : String → Builtin
unfolding is_function_assume is_function_input
builtin_of name =
    if any_equal name ignored_functions
    then ignored_call
    else if is_function_input name
    then input_call
    else if is_function_assume name
    then assume_call
    else if name =s= "pthread_create"
    then create_call
    else if name =s= "pthread_join"
    then join_call
    else if name =s= "exit"
    then exit_call
    else if name =s= "pthread_exit"
    then thread_exit_call
    else if name =s= "assert" || name =s= "__VERIFIER_assert"
    then assert_call
    else if name =s= "__VERIFIER_error"
    then error_call
    else if name =s= "pthread_mutex_lock"
    then lock_call
    else if name =s= "pthread_mutex_unlock"
    then unlock_call
    else if name =s= "__VERIFIER_atomic_begin"
    then atomic_begin_call
    else if name =s= "__VERIFIER_atomic_end"
    then atomic_end_call
    else if name =s= "llvm.dbg.declare"
    then debug_call
    else if has_prefix (codes "ldv_") (codes name)
    then debug_call
    else unknown_call
