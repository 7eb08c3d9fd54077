-- ===== src/Base/Faults.antt =====
-- Code that may fail: `none` is a failed `assert`, an `abort` or an access out of bounds.
use mathlib.Core.Path.{◌≡◌, refl, subst}
use mathlib.Core.Bool.{Bool, true, false}
use mathlib.Core.List.{List, [], ◌∷◌, ◌++◌}
use mathlib.Core.Option.{Option, none, some}

infixl 5 ◌>>=◌ ◌>>◌
abbrev pub ◌>>=◌ {ℓ κ} : {A : Type ℓ} {B : Type κ} → Option A → (A → Option B) → Option B
none >>= f = none
some a >>= f = f a

abbrev pub ◌>>◌ {ℓ} : {B : Type ℓ} → Option (Unit {0}) → Option B → Option B
m >> k = m >>= λ _. k

-- `assert( b )`
abbrev pub ensure : Bool → Option (Unit {0})
ensure true = some tt
ensure false = none

pub ensure-true : (b : Bool) (u : Unit {0}) → ensure b ≡ some u → b ≡ true
ensure-true true u h = refl
ensure-true false u h = cc

-- The code runs to its end, with a value that satisfies `P`.
abbrev pub Returns {ℓ κ} : {A : Type ℓ} → Option A → (A → Type κ) → Type (ℓ ⊔ κ)
Returns {A} m P = (a : A) × (m ≡ some a) × P a

pub some_inj {ℓ} : {A : Type ℓ} {a b : A} → some a ≡ some b → a ≡ b
some_inj h = cc

-- Inversion of a chain that came to its end.
pub >>=-eq-some {ℓ κ} :
    {A : Type ℓ} {B : Type κ} (m : Option A) (f : A → Option B) {b : B}
    → (m >>= f) ≡ some b
    → (a : A) × (m ≡ some a) × (f a ≡ some b)
>>=-eq-some none f h = cc
>>=-eq-some (some a) f h = (a, refl, h)

-- The predicate holds of the value if the code runs to its end.
abbrev pub Whenever {ℓ κ} : {A : Type ℓ} → Option A → (A → Type κ) → Type (ℓ ⊔ κ)
Whenever {A} m P = (a : A) → m ≡ some a → P a

pub each {ℓ κ υ} :
    {A : Type ℓ} {B : Type κ} {Q : B → Type υ} (m : Option A) (f : A → Option B)
    → ((a : A) → m ≡ some a → Whenever (f a) Q)
    → Whenever (m >>= f) Q
each none f h b e = cc
each (some a) f h b e = h a refl b e

pub never {ℓ κ} : {A : Type ℓ} (P : A → Type κ) → Whenever none P
never P a e = cc

pub stop {ℓ κ} : {A : Type ℓ} (P : A → Type κ) (a : A) → P a → Whenever (some a) P
stop P a p b e = subst P (some_inj e) p

-- A predicate of all elements, by recursion: it computes to tuples.
abbrev pub All {ℓ κ} : {A : Type ℓ} → (A → Type κ) → List A → Type κ
All P [] = Unit
All P (x ∷ xs) = P x × All P xs

pub All-append {ℓ κ} :
    {A : Type ℓ} (P : A → Type κ) (xs ys : List A) → All P xs → All P ys → All P (xs ++ ys)
All-append P [] ys hx hy = hy
All-append P (x ∷ xs) ys hx hy = (hx.0, All-append P xs ys hx.1 hy)

pub All-mono {ℓ κ υ} :
    {A : Type ℓ} {P : A → Type κ} {Q : A → Type υ}
    → ((a : A) → P a → Q a)
    → (xs : List A) → All P xs
    → All Q xs
All-mono f [] h = tt
All-mono f (x ∷ xs) h = (f x h.0, All-mono f xs h.1)
