-- ===== src/Datastore/Words.antt =====
-- The C++ integers of the explicit store: `uint64_t` with its wrap-around, and the signed types
-- that the casts of src/llvmsym/explicitstore.h go through.
use sym_divine.Base.{
  ℕ, zero, suc, ◌-◌, ◌%◌, ◌^◌, ◌<◌, ◌≡◌, Bool, true, false, Option, some, ltb, ◌==◌, ==_iff,
  Bool-cases, inl, inr, if◌then◌else◌, ◌>>◌, ensure, not, arith,
}
use native.Mathlib.Nat.{mod-lt, one-le-pow}

abbrev pub u64 : ℕ
u64 = 2 ^ 64

-- `lower_to_nbits`: the mask keeps the low `bw` bits.
unfoldable pub lower_to_nbits : ℕ → ℕ → ℕ
lower_to_nbits what bw = if bw == 64 then what else what % 2 ^ bw

-- The signed integers: `negsuc n` is −1 − n.
pub data ℤ : Type 0 where
  pos : ℕ → ℤ
  negsuc : ℕ → ℤ

abbrev pub ltz : ℤ → ℤ → Bool
ltz (pos a) (pos b) = ltb a b
ltz (pos a) (negsuc b) = false
ltz (negsuc a) (pos b) = true
ltz (negsuc a) (negsuc b) = ltb b a

abbrev pub lez : ℤ → ℤ → Bool
lez a b = not (ltz b a)

-- `static_cast< intN_t >`: the low bits of the word as two's complement.
abbrev pub to_signed : ℕ → ℕ → ℤ
to_signed width x =
    if ltb (x % 2 ^ width) (2 ^ (width - 1))
    then pos (x % 2 ^ width)
    else negsuc (2 ^ width - 1 - x % 2 ^ width)

-- The conversion back to `uint64_t`.
abbrev pub from_signed : ℤ → ℕ
from_signed (pos n) = n % u64
from_signed (negsuc n) = u64 - 1 - n

abbrev pub negated : ℕ → ℤ
negated zero = pos 0
negated (suc n) = negsuc n

abbrev pub magnitude : ℤ → ℕ
magnitude (pos n) = n
magnitude (negsuc n) = suc n

-- C++'s `%`: the sign is that of the first operand, and a zero divisor is undefined.
abbrev pub remz : ℤ → ℤ → Option ℤ
remz (pos a) b = ensure (not (magnitude b == 0)) >> some (pos (a % magnitude b))
remz (negsuc a) b = ensure (not (magnitude b == 0)) >> some (negated (suc a % magnitude b))

pub lower_to_nbits_lt : (what bw : ℕ) → what < u64 → lower_to_nbits what bw < 2 ^ bw
unfolding lower_to_nbits
lower_to_nbits_lt what bw small = elim (Bool-cases (bw == 64)) [
  | inl wide ↦ let same : bw ≡ 64 = (==_iff bw 64).0 wide in rw (same) small
  | inr e ↦ rw e (mod-lt what (one-le-pow bw 2 (omega arith)))
]
