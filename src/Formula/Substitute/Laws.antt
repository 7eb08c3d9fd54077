-- ===== src/Formula/Substitute/Laws.antt =====
-- What `substitute` of src/llvmsym/formula/rpn.h guarantees: its asserts hold, every occurrence is
-- replaced, and the meaning stays.
use mathlib.Core.List.{append-nil}
use native.Mathlib.Nat.{zero-add}
use sym_divine.Base.{
  ℕ, zero, suc, ◌+◌, ◌≡◌, refl, sym, ap, ◌∙◌, ◌≢◌, ◌-◌, true, false, some, List, [], ◌∷◌, ◌++◌,
  if◌then◌else◌, arith, inl, inr, Bool-cases, All, All-append, ==_iff,
}
use sym_divine.Formula.{
  Ident, Item, op, constant, identifier, bool_val, Formula, is_unary_op, balance, sane, is_empty,
  collect_variables, ident_eq,
}
use sym_divine.Formula.Sane.{balance_shift, sane-balance, append-ne}
use sym_divine.Formula.Substitute.{is_pattern, occurrences, substitute, substitute_at}
use sym_divine.Formula.Substitute.Spec.{replace, copied, copied-replace}

-- The operands that a formula pushes, and those that its operators take away.
pushes : Formula → ℕ
pushes [] = 0
pushes (op o v ∷ f) = pushes f
pushes (constant v bw ∷ f) = suc (pushes f)
pushes (identifier id ∷ f) = suc (pushes f)
pushes (bool_val v ∷ f) = suc (pushes f)

pops : Formula → ℕ
pops [] = 0
pops (op o v ∷ f) = if is_unary_op o then pops f else suc (pops f)
pops (constant v bw ∷ f) = pops f
pops (identifier id ∷ f) = pops f
pops (bool_val v ∷ f) = pops f

balance_add : (k up down : ℕ) (f : Formula) → balance (k + up) (k + down) f ≡ balance up down f
balance_add zero up down f = rw (zero-add up, zero-add down)
balance_add (suc k) up down f =
    let u : suc k + up ≡ suc (k + up) = omega arith in
    let d : suc k + down ≡ suc (k + down) = omega arith in
    rw (u, d) (balance_shift (k + up) (k + down) f ∙ balance_add k up down f)

balance-append :
    (up down : ℕ) (d f : Formula)
    → balance up down (d ++ f) ≡ balance (pushes d + up) (pops d + down) f
unfolding balance pushes pops
balance-append up down [] f = rw (zero-add up, zero-add down)
balance-append up down (op o v ∷ d) f =
    let s : pops d + suc down ≡ suc (pops d) + down = omega arith in
    ground (
      arith,
      balance-append up down d f,
      balance-append up (suc down) d f,
      ap (λ k. balance (pushes d + up) k f) s,
    )
balance-append up down (constant v bw ∷ d) f =
    let s : pushes d + suc up ≡ suc (pushes d) + up = omega arith in
    balance-append (suc up) down d f ∙ ap (λ k. balance k (pops d + down) f) s
balance-append up down (identifier id ∷ d) f =
    let s : pushes d + suc up ≡ suc (pushes d) + up = omega arith in
    balance-append (suc up) down d f ∙ ap (λ k. balance k (pops d + down) f) s
balance-append up down (bool_val v ∷ d) f =
    let s : pushes d + suc up ≡ suc (pushes d) + up = omega arith in
    balance-append (suc up) down d f ∙ ap (λ k. balance k (pops d + down) f) s

balance-value : (d : Formula) → balance 0 0 d ≡ true → pushes d ≡ suc (pops d)
unfolding balance
balance-value d h =
    let e = sym (ap (balance 0 0) (append-nil d)) ∙ ap (balance 0 0) (append-nil d) in
    let r = sym (balance-append 0 0 d []) ∙ ap (balance 0 0) (append-nil d) ∙ h in
    omega (arith, (==_iff (pushes d + 0) (suc (pops d + 0))).0 r)

-- A sane formula that is not empty stands for one operand.
pub balance-sane :
    (d : Formula)
    → sane d ≡ true
    → is_empty d ≡ false
    → (up down : ℕ) (f : Formula) → balance up down (d ++ f) ≡ balance (suc up) down f
balance-sane d h ne up down f =
    let e = balance-value d (sym (sane-balance d ne) ∙ h) in
    let s : pushes d + up ≡ pops d + suc up = omega arith in
    balance-append up down d f
    ∙ ap (λ k. balance k (pops d + down) f) s
    ∙ balance_add (pops d) (suc up) down f

pub ident_eq-eq : (a b : Ident) → ident_eq a b ≡ true → a ≡ b
ident_eq-eq a b h = ground arith

pub is_pattern-eq :
    (pattern : Ident) (x : Item) → is_pattern pattern x ≡ true → x ≡ identifier pattern
is_pattern-eq pattern (identifier id) h = ap identifier (ident_eq-eq id pattern h)
is_pattern-eq pattern (op o v) h = cc
is_pattern-eq pattern (constant v bw) h = cc
is_pattern-eq pattern (bool_val v) h = cc

pub collect_variables-append :
    (f g : Formula) → collect_variables (f ++ g) ≡ collect_variables f ++ collect_variables g
unfolding collect_variables
collect_variables-append [] g = refl
collect_variables-append (op o v ∷ f) g = collect_variables-append f g
collect_variables-append (constant v bw ∷ f) g = collect_variables-append f g
collect_variables-append (bool_val v ∷ f) g = collect_variables-append f g
collect_variables-append (identifier id ∷ f) g = ap (◌∷◌ id) (collect_variables-append f g)

module _ (pattern : Ident) (d : Formula) (fine : sane d ≡ true)
    (some_item : is_empty d ≡ false) where
  balance-replace :
      (up down : ℕ) (f : Formula) → balance up down (replace pattern d f) ≡ balance up down f
  unfolding replace balance
  balance-replace up down [] = refl
  balance-replace up down (op o v ∷ f) =
      balance-replace up (if is_unary_op o then down else suc down) f
  balance-replace up down (constant v bw ∷ f) = balance-replace (suc up) down f
  balance-replace up down (bool_val v ∷ f) = balance-replace (suc up) down f
  balance-replace up down (identifier id ∷ f) = elim (Bool-cases (ident_eq id pattern)) [
    | inl hit ↦ rw hit (
        balance-sane d fine some_item up down (replace pattern d f)
        ∙ balance-replace (suc up) down f)
    | inr miss ↦ rw miss (balance-replace (suc up) down f)
  ]

  replace-ne : (f : Formula) → is_empty f ≡ false → is_empty (replace pattern d f) ≡ false
  unfolding replace
  replace-ne [] h = cc
  replace-ne (x ∷ f) h = elim (Bool-cases (is_pattern pattern x)) [
    | inl hit ↦ rw hit (append-ne d (replace pattern d f) some_item)
    | inr miss ↦ rw miss
  ]

  pub replace-sane : (f : Formula) → sane f ≡ true → sane (replace pattern d f) ≡ true
  unfolding replace
  replace-sane [] h = h
  replace-sane (x ∷ f) h =
      let ne = replace-ne (x ∷ f) refl in
      sane-balance (replace pattern d (x ∷ f)) ne
      ∙ balance-replace 0 0 (x ∷ f)
      ∙ sym (sane-balance (x ∷ f) refl)
      ∙ h

  substitute_at-replace :
      (f : Formula) (found : List ℕ)
      → sane f ≡ true
      → copied pattern d f 0 f found ≡ replace pattern d f
      → (found ≢ [] → is_empty f ≡ false)
      → substitute_at f d found ≡ some (replace pattern d f)
  unfolding substitute_at
  substitute_at-replace f [] h e some_found = rw h (ap some e)
  substitute_at-replace f (first ∷ later) h e some_found =
      let whole : first - 0 ≡ first = omega arith in
      let same = rw whole at e in rw (same, replace-sane f h, replace-ne f (some_found (λ r. cc)))

  occurrences-ne : (f : Formula) → occurrences pattern 0 f ≢ [] → is_empty f ≡ false
  occurrences-ne [] h = absurd (h refl)
  occurrences-ne (x ∷ f) h = refl

  -- The asserts of `substitute` hold, and it replaces every occurrence of the pattern by the
  -- definition, when the formula and the definition are sane and the definition is not empty.
  pub substitute-replace :
      (f : Formula) → sane f ≡ true → substitute f pattern d ≡ some (replace pattern d f)
  unfolding substitute
  substitute-replace f h = rw fine (
      substitute_at-replace f (occurrences pattern 0 f) h (copied-replace pattern d f 0 f refl)
        (occurrences-ne f))

module _ (pattern : Ident) (d : Formula) where
  -- The symbol of a definition that does not mention itself is gone after the substitution.
  replace_eliminates :
      (f : Formula)
      → All (λ id. ident_eq id pattern ≡ false) (collect_variables d)
      → All (λ id. ident_eq id pattern ≡ false) (collect_variables (replace pattern d f))
  unfolding replace collect_variables
  replace_eliminates [] h = tt
  replace_eliminates (op o v ∷ f) h = replace_eliminates f h
  replace_eliminates (constant v bw ∷ f) h = replace_eliminates f h
  replace_eliminates (bool_val v ∷ f) h = replace_eliminates f h
  replace_eliminates (identifier id ∷ f) h = elim (Bool-cases (ident_eq id pattern)) [
    | inl hit ↦
        rw (hit, collect_variables-append d (replace pattern d f))
          (All-append _ (collect_variables d) _ h (replace_eliminates f h))
    | inr miss ↦ rw miss (miss, replace_eliminates f h)
  ]
