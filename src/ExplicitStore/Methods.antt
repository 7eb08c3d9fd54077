-- ===== src/ExplicitStore/Methods.antt =====
-- The methods of the store of src/llvmsym/explicitstore.h as the steps of a relation, and that they keep every
-- cell in its width. `implement_store` stands for the extensions and casts, which only call it.
use sym_divine.Base.{
  ℕ, ◌*◌, ◌%◌, ◌^◌, ◌<◌, ◌≤◌, ◌≡◌, List, Option, some, not, ◌==◌, ltb, ensure, arith, >>=-eq-some,
  some_inj, subst, All, true,
}
use sym_divine.Datastore.{Value, Value.variable, Value.constant, Comparison}
use sym_divine.Datastore.Words.{u64, ℤ, ℤ.pos, ℤ.negsuc, from_signed, to_signed, remz}
use sym_divine.ExplicitStore.{
  ValueStore, get, get_bw, implement, add64, sub64, mult64, div64, urem64, shl64, shr64, and64,
  or64, xor64, srem64, implement_add, implement_sub, implement_mult, implement_div, implement_urem,
  implement_srem, implement_and, implement_or, implement_xor, implement_left_shift,
  implement_right_shift, implement_store, prune, add_segment, erase_segment, holds, castable,
  overflows, Pointer, implement_pointer_store, clear, from_pointer, move_pointers,
}
use sym_divine.ExplicitStore.Bounds.{IsBounded, assign-IsBounded, cell-lt}
use sym_divine.ExplicitStore.Moves.{ArePointersWide, from_pointer_lt, moved_rows-FitsAll}
use sym_divine.ExplicitStore.Segments.{add_segment-IsBounded, erase_segment-IsBounded}
use native.Mathlib.Nat.{mod-lt, mod-le, div-le_self}

-- A constant that is a `uint64_t`.
abbrev pub IsWord : Value → Type 0
IsWord (variable segment offset pointer) = Unit
IsWord (constant value bw pointer) = value < u64

-- The methods that write a variable, move the pointers, prune, or change the segments. Widths are those of LLVM types.
pub data Step : ValueStore → ValueStore → Type 0 where
  adds :
      {s t : ValueStore} (r a b : Value)
      → IsWord a
      → IsWord b
      → implement_add s r a b ≡ some t
      → Step s t
  subs :
      {s t : ValueStore} (r a b : Value)
      → IsWord a
      → IsWord b
      → implement_sub s r a b ≡ some t
      → Step s t
  mults :
      {s t : ValueStore} (r a b : Value)
      → IsWord a
      → IsWord b
      → implement_mult s r a b ≡ some t
      → Step s t
  divs :
      {s t : ValueStore} (r a b : Value)
      → IsWord a
      → IsWord b
      → implement_div s r a b ≡ some t
      → Step s t
  urems :
      {s t : ValueStore} (r a b : Value)
      → IsWord a
      → IsWord b
      → implement_urem s r a b ≡ some t
      → Step s t
  srems :
      {s t : ValueStore} (r a b : Value)
      → IsWord a
      → IsWord b
      → implement_srem s r a b ≡ some t
      → Step s t
  ands :
      {s t : ValueStore} (r a b : Value)
      → IsWord a
      → IsWord b
      → implement_and s r a b ≡ some t
      → Step s t
  ors :
      {s t : ValueStore} (r a b : Value)
      → IsWord a
      → IsWord b
      → implement_or s r a b ≡ some t
      → Step s t
  xors :
      {s t : ValueStore} (r a b : Value)
      → IsWord a
      → IsWord b
      → implement_xor s r a b ≡ some t
      → Step s t
  shifts_left :
      {s t : ValueStore} (r a b : Value)
      → IsWord a
      → IsWord b
      → implement_left_shift s r a b ≡ some t
      → Step s t
  shifts_right :
      {s t : ValueStore} (r a b : Value)
      → IsWord a
      → IsWord b
      → implement_right_shift s r a b ≡ some t
      → Step s t
  stores : {s t : ValueStore} (r a : Value) → IsWord a → implement_store s r a ≡ some t → Step s t
  stores_pointer :
      {s t : ValueStore} (r : Value) (p : Pointer)
      → implement_pointer_store s r p ≡ some t
      → Step s t
  prunes : {s t : ValueStore} (a b : Value) (op : Comparison) → prune s a b op ≡ some t → Step s t
  adds_segment :
      {s t : ValueStore} (id : ℕ) (bws : List ℕ)
      → All (λ bw. bw ≤ 64) bws
      → add_segment s id bws ≡ some t
      → Step s t
  erases_segment : {s t : ValueStore} (id : ℕ) → erase_segment s id ≡ some t → Step s t
  -- where every pointer variable has 64 bits
  moves_pointers :
      {s t : ValueStore} (from count : ℕ)
      → All (All ArePointersWide) s.info
      → move_pointers s from count ≡ t
      → Step s t
  clears : {s t : ValueStore} → clear s ≡ t → Step s t

-- The operation stays within 64 bits.
abbrev IsWordOp : (ℕ → ℕ → Option ℕ) → Type 0
IsWordOp op = (x y z : ℕ) → x < u64 → y < u64 → op x y ≡ some z → z < u64

wrapped_lt : (x z : ℕ) → some (x % u64) ≡ some z → z < u64
wrapped_lt x z e = subst (λ n. n < u64) (some_inj e) (mod-lt x (omega arith))

div64-IsWordOp : IsWordOp div64
div64-IsWordOp x y z hx hy e =
    let (u, _, done) = >>=-eq-some (ensure (not (y == 0))) _ e in
    omega (arith, div-le_self x y, some_inj done)

urem64-IsWordOp : IsWordOp urem64
urem64-IsWordOp x y z hx hy e =
    let (u, _, done) = >>=-eq-some (ensure (not (y == 0))) _ e in
    omega (arith, mod-le x y, some_inj done)

shl64-IsWordOp : IsWordOp shl64
shl64-IsWordOp x y z hx hy e =
    let (u, _, done) = >>=-eq-some (ensure (ltb y 64)) _ e in wrapped_lt (x * 2 ^ y) z done

shr64-IsWordOp : IsWordOp shr64
shr64-IsWordOp x y z hx hy e =
    let (u, _, done) = >>=-eq-some (ensure (ltb y 64)) _ e in
    omega (arith, div-le_self x (2 ^ y), some_inj done)

from_signed_lt : (z : ℤ) → from_signed z < u64
from_signed_lt (pos n) = mod-lt n (omega arith)
from_signed_lt (negsuc n) = omega arith

srem64-IsWordOp : (bw : ℕ) → IsWordOp (srem64 bw)
srem64-IsWordOp bw x y z hx hy e =
    let p : ℤ = to_signed bw x in
    let q : ℤ = to_signed bw y in
    let (u, _, r₁) = >>=-eq-some (ensure (castable bw)) _ e in
    let (v, _, r₂) = >>=-eq-some (ensure (not (overflows bw p q))) _ r₁ in
    let (w, _, done) = >>=-eq-some (remz p q) _ r₂ in
    subst (λ n. n < u64) (some_inj done) (from_signed_lt w)

get_lt : (s : ValueStore) (a : Value) (x : ℕ) → IsBounded s → IsWord a → get s a ≡ some x → x < u64
unfolding get
get_lt s (constant value bw pointer) x b w e = subst (λ n. n < u64) (some_inj e) w
get_lt s (variable segment offset pointer) x b w e =
    cell-lt s.cells s.info segment offset x e b.fits

-- A method for two operands keeps every cell within its width.
implement-IsBounded :
    (op : ℕ → ℕ → Option ℕ) (s t : ValueStore) (r a b : Value)
    → IsWordOp op
    → IsBounded s
    → IsWord a
    → IsWord b
    → implement op s r a b ≡ some t
    → IsBounded t
unfolding implement
implement-IsBounded op s t r a b word h wa wb e =
    let (x, e₁, r₁) = >>=-eq-some (get s a) _ e in
    let (y, e₂, r₂) = >>=-eq-some (get s b) _ r₁ in
    let (z, e₃, done) = >>=-eq-some (op x y) _ r₂ in
    assign-IsBounded s t r z _ (word x y z (get_lt s a x h wa e₁) (get_lt s b y h wb e₂) e₃) h done

prune-IsBounded :
    (s t : ValueStore) (a b : Value) (op : Comparison)
    → IsBounded s
    → prune s a b op ≡ some t
    → IsBounded t
unfolding prune
prune-IsBounded s t a b op h e =
    let (bw_a, _, r₁) = >>=-eq-some (get_bw s a) _ e in
    let (bw_b, _, r₂) = >>=-eq-some (get_bw s b) _ r₁ in
    let (u, _, r₃) = >>=-eq-some (ensure (bw_a == bw_b)) _ r₂ in
    let (x, _, r₄) = >>=-eq-some (get s a) _ r₃ in
    let (y, _, r₅) = >>=-eq-some (get s b) _ r₄ in
    let (held, _, done) = >>=-eq-some (holds op bw_a x y) _ r₅ in
    subst IsBounded (some_inj done) (record { fits = h.fits })

-- Every step from a store whose cells all fit their widths, of at most 64 bits, leads to such a store: a
-- method that writes a variable, `prune`, `addSegment`, `eraseSegment`, `clear`, and `movePointers` where
-- all pointer variables have 64 bits.
pub Step-IsBounded : {s t : ValueStore} → Step s t → IsBounded s → IsBounded t
unfolding implement_add implement_sub implement_mult implement_div implement_urem implement_srem
    implement_and implement_or implement_xor implement_left_shift implement_right_shift
    implement_store implement_pointer_store get move_pointers clear
Step-IsBounded {s} {t} (adds r a b wa wb e) h =
    implement-IsBounded add64 s t r a b (λ x y z hx hy. wrapped_lt _ z) h wa wb e
Step-IsBounded {s} {t} (subs r a b wa wb e) h =
    implement-IsBounded sub64 s t r a b (λ x y z hx hy. wrapped_lt _ z) h wa wb e
Step-IsBounded {s} {t} (mults r a b wa wb e) h =
    implement-IsBounded mult64 s t r a b (λ x y z hx hy. wrapped_lt _ z) h wa wb e
Step-IsBounded {s} {t} (ands r a b wa wb e) h =
    implement-IsBounded and64 s t r a b (λ x y z hx hy. wrapped_lt _ z) h wa wb e
Step-IsBounded {s} {t} (ors r a b wa wb e) h =
    implement-IsBounded or64 s t r a b (λ x y z hx hy. wrapped_lt _ z) h wa wb e
Step-IsBounded {s} {t} (xors r a b wa wb e) h =
    implement-IsBounded xor64 s t r a b (λ x y z hx hy. wrapped_lt _ z) h wa wb e
Step-IsBounded {s} {t} (divs r a b wa wb e) h =
    implement-IsBounded div64 s t r a b div64-IsWordOp h wa wb e
Step-IsBounded {s} {t} (urems r a b wa wb e) h =
    implement-IsBounded urem64 s t r a b urem64-IsWordOp h wa wb e
Step-IsBounded {s} {t} (shifts_left r a b wa wb e) h =
    implement-IsBounded shl64 s t r a b shl64-IsWordOp h wa wb e
Step-IsBounded {s} {t} (shifts_right r a b wa wb e) h =
    implement-IsBounded shr64 s t r a b shr64-IsWordOp h wa wb e
Step-IsBounded {s} {t} (srems r a b wa wb e) h =
    let (bw, _, done) = >>=-eq-some (get_bw s a) _ e in
    implement-IsBounded (srem64 bw) s t r a b (srem64-IsWordOp bw) h wa wb done
Step-IsBounded {s} {t} (stores r a wa e) h =
    let (x, found, done) = >>=-eq-some (get s a) _ e in
    assign-IsBounded s t r x _ (get_lt s a x h wa found) h done
Step-IsBounded {s} {t} (prunes a b op e) h = prune-IsBounded s t a b op h e
Step-IsBounded {s} {t} (adds_segment id bws small e) h = add_segment-IsBounded s t id bws small h e
Step-IsBounded {s} {t} (erases_segment id e) h = erase_segment-IsBounded s t id h e
Step-IsBounded {s} (moves_pointers from count wide e) h =
    subst IsBounded e (record { fits = moved_rows-FitsAll from count s.cells s.info wide h.fits })
Step-IsBounded (clears e) h = subst IsBounded e (record { fits = tt })
Step-IsBounded {s} {t} (stores_pointer r p e) h =
    assign-IsBounded s t r (from_pointer p) true (from_pointer_lt p) h e
