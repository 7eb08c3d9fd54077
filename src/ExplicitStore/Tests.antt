-- ===== src/ExplicitStore/Tests.antt =====
-- The explicit store on a small example: a byte, a pointer to the last variable, and its target.
use sym_divine.Base.{ℕ, ◌≡◌, ◌≢◌, refl, [], ◌∷◌, true, false, some, Returns, arith}
use sym_divine.Datastore.{Value, Value.variable, Value.constant, Comparison.slt, icmp_negate}
use sym_divine.ExplicitStore.{
  ValueStore, VariableInfo, Pointer, to_pointer, from_pointer, move_pointers, implement_add,
  implement_srem, prune, add_segment, cell, get, get_bw, assign, implement, holds, signed,
}
use sym_divine.Datastore.Words.{lower_to_nbits}
use sym_divine.ExplicitStore.Bounds.{IsBounded}
use sym_divine.ExplicitStore.Methods.{Step.adds, Step-IsBounded}
use sym_divine.ExplicitStore.Comparisons.{prune_branches}
use sym_divine.ExplicitStore.Pointers.{pointer_target_kept, relocated, place}

abbrev target : Pointer
target = record { segment = 2; offset = 0 }

abbrev plain : ℕ → VariableInfo
plain bw = record { bw = bw; is_pointer = false }

abbrev link : VariableInfo
link = record { bw = 64; is_pointer = true }

abbrev small_store : ValueStore
small_store = record {
  cells = (200 ∷ []) ∷ (8589934592 ∷ []) ∷ (77 ∷ []) ∷ [];
  info = (plain 8 ∷ []) ∷ (link ∷ []) ∷ (plain 32 ∷ []) ∷ [];
  empty = false;
}

abbrev byte : Value
byte = variable 0 0 false

abbrev hundred : Value
hundred = constant 100 8 false

abbrev with_byte : ℕ → ValueStore
with_byte n = record small_store { cells = (n ∷ []) ∷ (8589934592 ∷ []) ∷ (77 ∷ []) ∷ [] }

-- The sum of two bytes wraps around.
add_wraps : implement_add small_store byte byte hundred ≡ some (with_byte 44)
unfolding implement_add implement get assign lower_to_nbits
add_wraps = refl

-- −56 modulo 10 is −6.
srem_sign : implement_srem small_store byte byte (constant 10 8 false) ≡ some (with_byte 250)
unfolding implement_srem implement get get_bw assign lower_to_nbits
srem_sign = refl

small_store-IsBounded : IsBounded small_store
small_store-IsBounded = record {
  fits = (
    (omega arith, omega arith, tt),
    ((omega arith, omega arith, tt), ((omega arith, omega arith, tt), tt)),
  );
}

Step-IsBounded_example : IsBounded (with_byte 44)
Step-IsBounded_example =
    Step-IsBounded (adds byte byte hundred tt (omega arith) add_wraps) small_store-IsBounded

pruned : prune small_store byte hundred slt ≡ some small_store
unfolding prune get get_bw holds signed
pruned = refl

prune_branches_example :
    Returns
      (prune small_store byte hundred (icmp_negate slt))
      λ r. (r.empty ≡ true) × (r.cells ≡ small_store.cells) × (r.info ≡ small_store.info)
prune_branches_example = prune_branches small_store small_store byte hundred slt refl pruned

abbrev grown_store : ValueStore
grown_store = record {
  cells = (200 ∷ []) ∷ (0 ∷ []) ∷ (8589934592 ∷ []) ∷ (77 ∷ []) ∷ [];
  info = (plain 8 ∷ []) ∷ (plain 16 ∷ []) ∷ (link ∷ []) ∷ (plain 32 ∷ []) ∷ [];
  empty = false;
}

grown : add_segment small_store 1 (16 ∷ []) ≡ some grown_store
unfolding add_segment
grown = refl

abbrev roomy_store : ValueStore
roomy_store = record {
  cells = (8589934592 ∷ []) ∷ (5 ∷ []) ∷ (77 ∷ []) ∷ [];
  info = (link ∷ []) ∷ (plain 8 ∷ []) ∷ (plain 32 ∷ []) ∷ [];
  empty = false;
}

abbrev split_store : ValueStore
split_store = record {
  cells = (8589934592 ∷ []) ∷ (0 ∷ []) ∷ (5 ∷ []) ∷ (77 ∷ []) ∷ [];
  info = (link ∷ []) ∷ (plain 16 ∷ []) ∷ (plain 8 ∷ []) ∷ (plain 32 ∷ []) ∷ [];
  empty = false;
}

split : add_segment roomy_store 1 (16 ∷ []) ≡ some split_store
unfolding add_segment
split = refl

pointer_target_kept_example :
    Returns (cell (move_pointers split_store 1 1).cells (place 1 0) 0) λ w.
      (target.segment ≢ 1
        → cell (move_pointers split_store 1 1).cells (to_pointer w).segment (to_pointer w).offset
          ≡ some (relocated 1 1 (plain 32) 77))
      × (target.segment ≡ 1 → to_pointer w ≡ target)
unfolding from_pointer
pointer_target_kept_example =
    pointer_target_kept roomy_store split_store 1 0 0 77 target (16 ∷ []) link (plain 32)
      (omega arith) split refl refl refl (omega arith) refl refl
