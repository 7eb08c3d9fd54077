-- ===== src/ExplicitStore/Comparisons.antt =====
-- The two outcomes of a comparison in src/llvmsym/explicitstore.h: `prune` by it and by its negation.
use sym_divine.Base.{
  ℕ, Bool, true, false, not, ◌||◌, ◌≡◌, refl, ap, sym, ensure, Returns, some, >>=-eq-some, some_inj,
  arith, ltb, leb, ◌==◌,
}
use sym_divine.Datastore.{
  Value, Comparison, icmp_negate, Comparison.eq, Comparison.ne, Comparison.ugt, Comparison.uge,
  Comparison.ult, Comparison.ule, Comparison.sgt, Comparison.sge, Comparison.slt, Comparison.sle,
}
use sym_divine.Datastore.Words.{ℤ, ltz, lez, to_signed}
use sym_divine.ExplicitStore.{ValueStore, holds, prune, get, get_bw, signed, castable}

not-not : (b : Bool) → not (not b) ≡ b
not-not true = refl
not-not false = refl

ltb-not : (a b : ℕ) → ltb a b ≡ not (leb b a)
ltb-not a b = ground arith

leb-not : (a b : ℕ) → leb a b ≡ not (ltb b a)
leb-not a b = ground arith

signed-not :
    (p q : ℤ → ℤ → Bool) (bw x y : ℕ) (h : Bool)
    → ((a b : ℤ) → q a b ≡ not (p a b))
    → signed p bw x y ≡ some h
    → signed q bw x y ≡ some (not h)
unfolding signed
signed-not p q bw x y h neg e =
    let (u, passed, done) = >>=-eq-some (ensure (castable bw)) _ e in
    let same = neg (to_signed bw x) (to_signed bw y) in rw (passed, same, some_inj done)

-- If a comparison gives a result, its negation gives the other one.
holds-icmp_negate :
    (op : Comparison) (bw x y : ℕ) (h : Bool)
    → holds op bw x y ≡ some h
    → holds (icmp_negate op) bw x y ≡ some (not h)
unfolding holds icmp_negate
holds-icmp_negate eq bw x y h e = ap (λ b. some (not b)) (some_inj e)
holds-icmp_negate ne bw x y h e = rw (← some_inj e, not-not)
holds-icmp_negate ugt bw x y h e = rw (← some_inj e, leb-not x y)
holds-icmp_negate uge bw x y h e = rw (← some_inj e, ltb-not x y)
holds-icmp_negate ult bw x y h e = rw (← some_inj e, leb-not y x)
holds-icmp_negate ule bw x y h e = rw (← some_inj e, ltb-not y x)
holds-icmp_negate sgt bw x y h e = signed-not (λ p q. ltz q p) lez bw x y h (λ a b. refl) e
holds-icmp_negate sge bw x y h e =
    signed-not (λ p q. lez q p) ltz bw x y h (λ a b. sym (not-not (ltz a b))) e
holds-icmp_negate slt bw x y h e = signed-not ltz (λ p q. lez q p) bw x y h (λ a b. refl) e
holds-icmp_negate sle bw x y h e =
    signed-not lez (λ p q. ltz q p) bw x y h (λ a b. sym (not-not (ltz b a))) e

opposite : (was h b : Bool) → was ≡ false → (was || not h) ≡ b → (was || not (not h)) ≡ not b
opposite true h b w e = cc
opposite false h b w e = ap not e

prune-runs :
    (s : ValueStore) (a b : Value) (op : Comparison) (bw bw' x y : ℕ) (u : Unit {0}) (h : Bool)
    → get_bw s a ≡ some bw
    → get_bw s b ≡ some bw'
    → ensure (bw == bw') ≡ some u
    → get s a ≡ some x
    → get s b ≡ some y
    → holds op bw x y ≡ some h
    → prune s a b op ≡ some (record s { empty = s.empty || not h })
unfolding prune
prune-runs s a b op bw bw' x y u h e₁ e₂ e₃ e₄ e₅ e₆ = rw (e₁, e₂, e₃, e₄, e₅, e₆)

-- From a store that is not empty, if pruning by a comparison runs to its end, so does pruning by the
-- negated comparison, the variables stay, and exactly one of the two stores is empty.
pub prune_branches :
    (s t : ValueStore) (a b : Value) (op : Comparison)
    → s.empty ≡ false
    → prune s a b op ≡ some t
    → Returns
        (prune s a b (icmp_negate op))
        λ r. (r.empty ≡ not t.empty) × (r.cells ≡ s.cells) × (r.info ≡ s.info)
unfolding prune
prune_branches s t a b op nonempty e =
    let (bw_a, e₁, r₁) = >>=-eq-some (get_bw s a) _ e in
    let (bw_b, e₂, r₂) = >>=-eq-some (get_bw s b) _ r₁ in
    let (u, e₃, r₃) = >>=-eq-some (ensure (bw_a == bw_b)) _ r₂ in
    let (x, e₄, r₄) = >>=-eq-some (get s a) _ r₃ in
    let (y, e₅, r₅) = >>=-eq-some (get s b) _ r₄ in
    let (h, e₆, done) = >>=-eq-some (holds op bw_a x y) _ r₅ in
    let other = holds-icmp_negate op bw_a x y h e₆ in
    (
      record s { empty = s.empty || not (not h) },
      prune-runs s a b (icmp_negate op) bw_a bw_b x y u (not h) e₁ e₂ e₃ e₄ e₅ other,
      (opposite s.empty h t.empty nonempty (ap (λ r. r.empty) (some_inj done)), refl, refl),
    )
