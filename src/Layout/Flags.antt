-- ===== src/Layout/Flags.antt =====
-- The flags of the variables: each of the two bits is written without disturbing the other.
use sym_divine.Base.{
  ℕ, ◌+◌, ◌-◌, ◌*◌, ◌/◌, ◌%◌, ◌≡◌, ap, Bool, true, false, some, ◌==◌, get_elem?, get_elem?-lt,
  get_elem?-set_self, set, arith, Returns, >>=-eq-some,
}
use sym_divine.Layout.{
  Layout, flags_of, with_flags, is_multival, set_multival, is_symbolic_pointer,
  set_symbolic_pointer,
}

-- A write of the flags is read back.
flags_of-with_flags :
    (l : Layout) (seg off flags new : ℕ)
    → flags_of l seg off ≡ some flags
    → Returns (with_flags l seg off new) λ m. flags_of m seg off ≡ some new
flags_of-with_flags l seg off flags new e =
    let (row, e₁, e₂) = >>=-eq-some (get_elem? l.variables_flags seg) _ e in
    (
      record l { variables_flags = set l.variables_flags seg (set row off new) },
      rw e₁,
      rw (get_elem?-set_self l.variables_flags seg (set row off new) (get_elem?-lt _ seg row e₁))
          (get_elem?-set_self row off new (get_elem?-lt row off flags e₂)),
    )

-- The two flags of an existing variable after a write of the one that tells a symbolic variable: it
-- has the value written, and the flag of a symbolic pointer is as it was.
is_multival-set_multival :
    (l : Layout) (seg off flags : ℕ) (value : Bool)
    → flags_of l seg off ≡ some flags
    → Returns (set_multival l seg off value) λ m.
      (is_multival m seg off ≡ some value)
      × (is_symbolic_pointer m seg off ≡ is_symbolic_pointer l seg off)
unfolding is_multival set_multival is_symbolic_pointer
is_multival-set_multival l seg off flags true e =
    let (m, e₁, e₂) = flags_of-with_flags l seg off flags (flags - flags % 2 + 1) e in
    let own : ((flags - flags % 2 + 1) % 2 == 1) ≡ true = ground arith in
    let other : ((flags - flags % 2 + 1) / 2 % 2 == 1) ≡ (flags / 2 % 2 == 1) = ground arith in
    (m, rw e e₁, (rw e₂ (ap some own), rw (e₂, e) (ap some other)))
is_multival-set_multival l seg off flags false e =
    let (m, e₁, e₂) = flags_of-with_flags l seg off flags (flags - flags % 2) e in
    let own : ((flags - flags % 2) % 2 == 1) ≡ false = ground arith in
    let other : ((flags - flags % 2) / 2 % 2 == 1) ≡ (flags / 2 % 2 == 1) = ground arith in
    (m, rw e e₁, (rw e₂ (ap some own), rw (e₂, e) (ap some other)))

-- The two flags of an existing variable after a write of the one that tells a symbolic pointer: it
-- has the value written, and the flag of a symbolic variable is as it was.
is_symbolic_pointer-set_symbolic_pointer :
    (l : Layout) (seg off flags : ℕ) (value : Bool)
    → flags_of l seg off ≡ some flags
    → Returns (set_symbolic_pointer l seg off value) λ m.
      (is_symbolic_pointer m seg off ≡ some value) × (is_multival m seg off ≡ is_multival l seg off)
unfolding is_multival is_symbolic_pointer set_symbolic_pointer
is_symbolic_pointer-set_symbolic_pointer l seg off flags true e =
    let new : ℕ = flags - flags / 2 % 2 * 2 + 2 in
    let (m, e₁, e₂) = flags_of-with_flags l seg off flags new e in
    let own : (new / 2 % 2 == 1) ≡ true = ground arith in
    let other : (new % 2 == 1) ≡ (flags % 2 == 1) = ground arith in
    (m, rw e e₁, (rw e₂ (ap some own), rw (e₂, e) (ap some other)))
is_symbolic_pointer-set_symbolic_pointer l seg off flags false e =
    let new : ℕ = flags - flags / 2 % 2 * 2 in
    let (m, e₁, e₂) = flags_of-with_flags l seg off flags new e in
    let own : (new / 2 % 2 == 1) ≡ false = ground arith in
    let other : (new % 2 == 1) ≡ (flags % 2 == 1) = ground arith in
    (m, rw e e₁, (rw e₂ (ap some own), rw (e₂, e) (ap some other)))
