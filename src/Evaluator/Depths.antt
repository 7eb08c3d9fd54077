-- ===== src/Evaluator/Depths.antt =====
-- The shapes of the stacks of src/llvmsym/evaluator.h: how many frames each thread has, which the control and
-- the layout must agree on.
use sym_divine.Base.{
  ℕ, zero, suc, ◌+◌, ◌-◌, ◌≤◌, ◌≡◌, refl, sym, ◌∙◌, ap, some, List, [], ◌∷◌, ◌++◌, length,
  length-push_back, get_elem?, set, push_back, pop_back, back?, some_inj, arith, push_back-pop_back,
  erase_at, take, drop, length-append,
}

-- The numbers of frames of the threads.
abbrev pub depths {ℓ} : {A : Type ℓ} → List (List A) → List ℕ
depths [] = []
depths (xs ∷ rest) = length xs ∷ depths rest

pub depths-set {ℓ} :
    {A : Type ℓ} (xss : List (List A)) (i : ℕ) (old new : List A)
    → get_elem? xss i ≡ some old
    → length new ≡ length old
    → depths (set xss i new) ≡ depths xss
depths-set [] i old new e same = refl
depths-set (xs ∷ xss) zero old new e same =
    ap (λ n. n ∷ depths xss) (same ∙ ap length (sym (some_inj e)))
depths-set (xs ∷ xss) (suc i) old new e same =
    ap (λ ns. length xs ∷ ns) (depths-set xss i old new e same)

pub top-length {ℓ} :
    {A : Type ℓ} (stack : List A) (top new : A)
    → back? stack ≡ some top
    → length (push_back (pop_back stack) new) ≡ length stack
top-length stack top new e =
    length-push_back (pop_back stack) new
    ∙ sym (length-push_back (pop_back stack) top)
    ∙ ap length (push_back-pop_back stack top e)

pub depths-set_new {ℓ} :
    {A : Type ℓ} (xss : List (List A)) (i : ℕ) (new : List A)
    → depths (set xss i new) ≡ set (depths xss) i (length new)
depths-set_new [] i new = refl
depths-set_new (xs ∷ xss) zero new = refl
depths-set_new (xs ∷ xss) (suc i) new = ap (λ ns. length xs ∷ ns) (depths-set_new xss i new)

pub depths-erase_at {ℓ} :
    {A : Type ℓ} (xss : List (List A)) (i : ℕ) → depths (erase_at xss i) ≡ erase_at (depths xss) i
depths-erase_at [] i = refl
depths-erase_at (xs ∷ xss) zero = refl
depths-erase_at (xs ∷ xss) (suc i) = ap (λ ns. length xs ∷ ns) (depths-erase_at xss i)

pub length-depths {ℓ} : {A : Type ℓ} (xss : List (List A)) → length (depths xss) ≡ length xss
length-depths [] = refl
length-depths (xs ∷ xss) = ap suc (length-depths xss)

get_elem?-depths {ℓ} :
    {A : Type ℓ} (xss : List (List A)) (i : ℕ) (xs : List A)
    → get_elem? xss i ≡ some xs
    → get_elem? (depths xss) i ≡ some (length xs)
get_elem?-depths [] i xs e = cc
get_elem?-depths (ys ∷ xss) zero xs e = ap some (ap length (some_inj e))
get_elem?-depths (ys ∷ xss) (suc i) xs e = get_elem?-depths xss i xs e

-- Where the shapes agree, a thread has as many frames on both sides.
pub depths-same {ℓ κ} :
    {A : Type ℓ} {B : Type κ} (xss : List (List A)) (yss : List (List B)) (i : ℕ) (xs : List A)
    (ys : List B)
    → depths xss ≡ depths yss
    → get_elem? xss i ≡ some xs
    → get_elem? yss i ≡ some ys
    → length xs ≡ length ys
depths-same xss yss i xs ys same e e1 = some_inj (
    sym (get_elem?-depths xss i xs e)
    ∙ ap (λ ns. get_elem? ns i) same
    ∙ get_elem?-depths yss i ys e1)

length-take {ℓ} : {A : Type ℓ} (n : ℕ) (xs : List A) → n ≤ length xs → length (take n xs) ≡ n
length-take zero xs h = refl
length-take (suc n) [] h = absurd (omega arith)
length-take (suc n) (x ∷ xs) h = ap suc (length-take n xs (omega arith))

length-drop {ℓ} : {A : Type ℓ} (n : ℕ) (xs : List A) → length (drop n xs) ≡ length xs - n
length-drop zero xs = omega arith
length-drop (suc n) [] = omega arith
length-drop (suc n) (x ∷ xs) = omega (arith, length-drop n xs)

-- A range cut out of a list, its end excluded.
pub length-cut {ℓ} :
    {A : Type ℓ} (first end : ℕ) (xs : List A)
    → first ≤ end
    → end ≤ length xs
    → length (take first xs ++ drop end xs) + (end - first) ≡ length xs
length-cut first end xs h h1 = omega (
  arith,
  length-append (take first xs) (drop end xs),
  length-take first xs (omega arith),
  length-drop end xs,
)
