-- ===== src/Smt/Words.antt =====
-- An instance of Z3 that computes values, for tests: words of 32 bits, and variables that are their
-- offsets.
use sym_divine.Base.{ℕ, ◌+◌, ◌-◌, ◌*◌, ◌/◌, ◌%◌, ◌^◌, Bool, ltb, leb, ◌==◌, if◌then◌else◌}
use sym_divine.Smt.{Z3}

abbrev to_nat : Bool → ℕ
to_nat b = if b then 1 else 0

abbrev pub words : Z3
words = record {
  Expr = ℕ;
  add = λ a b. (a + b) % 2 ^ 32;
  sub = λ a b. (a + 2 ^ 32 - b) % 2 ^ 32;
  mul = λ a b. a * b % 2 ^ 32;
  sdiv = λ a b. a / b;
  same = λ a b. to_nat (a == b);
  differ = λ a b. 1 - to_nat (a == b);
  bvurem = λ a b. a % b;
  bvsrem = λ a b. a % b;
  both = λ a b. a * b;
  either = λ a b. to_nat (ltb 0 (a + b));
  bvand = λ a b. 0;
  bvor = λ a b. a;
  bvxor = λ a b. a;
  bvshl = λ a b. a * 2 ^ b % 2 ^ 32;
  bvlshr = λ a b. a / 2 ^ b;
  bvconcat = λ a b. a * 2 ^ 32 + b;
  slt = λ a b. to_nat (ltb a b);
  sgt = λ a b. to_nat (ltb b a);
  sle = λ a b. to_nat (leb a b);
  sge = λ a b. to_nat (leb b a);
  ult = λ a b. to_nat (ltb a b);
  ugt = λ a b. to_nat (ltb b a);
  ule = λ a b. to_nat (leb a b);
  uge = λ a b. to_nat (leb b a);
  negate = λ a. 1 - a;
  bvnot = λ a. 2 ^ 32 - 1 - a;
  zero_ext = λ n a. a;
  sign_ext = λ n a. a;
  extract = λ hi lo a. a / 2 ^ lo % 2 ^ (hi + 1 - lo);
  bv_size = λ a. 32;
  bv_val = λ v bw. v;
  bool_value = to_nat;
  bv_const = λ vpref id. id.off;
}
