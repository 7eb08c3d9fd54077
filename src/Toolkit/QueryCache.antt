-- ===== src/Toolkit/QueryCache.antt =====
-- `QueryCache` of src/toolkit/query_cache.h. The hash table is an association list with the equality of
-- queries; `last_cached` and the pointer `last_res`, which the constructor leaves unset, are options,
-- and the pointer is the key of the entry that it points into. `none` is the exception of `result`,
-- or a read of an unset member.
use sym_divine.Base.{
  ℕ, ◌+◌, ◌≡◌, refl, sym, ◌∙◌, Bool, true, false, Option, none, some, List, [], ◌∷◌, if◌then◌else◌,
  ◌>>=◌, Bool-cases, Option-cases, inl, inr,
}
use sym_divine.Database.{find}

pub record Cache {ℓ κ υ} (Q : Type ℓ) (R : Type κ) (I : Type υ) : Type (ℓ ⊔ κ ⊔ υ) where
  pub last_cached : Option Bool
  pub last_res : Option Q
  pub hit_count : ℕ
  pub miss_count : ℕ
  pub replace_count : ℕ
  pub cache : List (Q × (R × I))

abbrev pub is_some {ℓ} : {A : Type ℓ} → Option A → Bool
is_some none = false
is_some (some a) = true

-- `cache[ q ] = v`
abbrev pub assign_entry {ℓ κ} :
    {Q : Type ℓ} {V : Type κ} → (Q → Q → Bool) → List (Q × V) → Q → V → List (Q × V)
assign_entry eq [] q v = (q, v) ∷ []
assign_entry eq ((k, w) ∷ table) q v =
    let later : List (_ × _) = assign_entry eq table q v in
    if eq q k then (k, v) ∷ table else (k, w) ∷ later

module _ {ℓ κ υ} {Q : Type ℓ} {R : Type κ} {I : Type υ} (eq : Q → Q → Bool) (access : I → I) where
  -- `is_cached`, and its answer
  unfoldable pub is_cached : Cache Q R I → Q → Cache Q R I × Bool
  is_cached c q = elim (find eq c.cache q) [
    | none ↦ (record c { miss_count = c.miss_count + 1; last_cached = some false }, false)
    | some entry ↦ (
      record c {
        hit_count = c.hit_count + 1;
        last_cached = some true;
        cache = assign_entry eq c.cache q (entry.0, access entry.1);
        last_res = some q;
      },
      true,
    )
  ]

  unfoldable pub result : Cache Q R I → Option R
  result c = do
    cached ← c.last_cached
    if cached then (c.last_res >>= λ q. find eq c.cache q >>= λ entry. some entry.0) else none

  -- `place`, with the statistics that the further arguments make
  unfoldable pub place : Cache Q R I → Q → R → I → Cache Q R I
  place c q r info = record c {
    replace_count = if is_some (find eq c.cache q) then c.replace_count + 1 else c.replace_count;
    cache = assign_entry eq c.cache q (r, info);
  }

-- `std::equal_to` is an equivalence.
pub record IsEquality {ℓ} {Q : Type ℓ} (eq : Q → Q → Bool) : Type ℓ where
  pub refl_ : (a : Q) → eq a a ≡ true
  pub sym_ : (a b : Q) → eq a b ≡ true → eq b a ≡ true
  pub trans_ : (a b c : Q) → eq a b ≡ true → eq b c ≡ true → eq a c ≡ true

module _ {ℓ κ} {Q : Type ℓ} {V : Type κ} (eq : Q → Q → Bool) (laws : IsEquality eq) where
  find_same : (table : List (Q × V)) (a b : Q) → eq a b ≡ true → find eq table a ≡ find eq table b
  find_same [] a b h = refl
  find_same ((k, v) ∷ table) a b h =
      let ih = find_same table a b h in
      elim (Bool-cases (eq a k)) [
        | inl hit ↦ rw (hit, laws.trans_ b a k (laws.sym_ a b h) hit) refl
        | inr miss ↦ elim (Bool-cases (eq b k)) [
          | inl hit ↦ let hit' = laws.trans_ a b k h hit in cc
          | inr miss' ↦ rw (miss, miss') ih
        ]
      ]

  -- What is found after an assignment.
  pub find-assign_entry :
      (table : List (Q × V)) (q p : Q) (v : V)
      → find eq (assign_entry eq table q v) p ≡ (if eq p q then some v else find eq table p)
  find-assign_entry [] q p v = refl
  find-assign_entry ((k, w) ∷ table) q p v =
      let ih = find-assign_entry table q p v in
      elim (Bool-cases (eq q k)) [
        | inl hit ↦ rw hit elim (Bool-cases (eq p k)) [
          | inl hit' ↦ rw (hit', laws.trans_ p k q hit' (laws.sym_ q k hit)) refl
          | inr miss' ↦ elim (Bool-cases (eq p q)) [
            | inl same ↦ let wrong = laws.trans_ p q k same hit in cc
            | inr other ↦ rw (miss', other) refl
          ]
        ]
        | inr miss ↦ rw miss elim (Bool-cases (eq p k)) [
          | inl hit' ↦ elim (Bool-cases (eq p q)) [
            | inl same ↦ let wrong = laws.trans_ q p k (laws.sym_ p q same) hit' in cc
            | inr other ↦ rw (hit', other) refl
          ]
          | inr miss' ↦ rw miss' ih
        ]
      ]

module _ {ℓ κ υ} {Q : Type ℓ} {R : Type κ} {I : Type υ} (eq : Q → Q → Bool) (access : I → I)
    (laws : IsEquality eq) where
  -- The answer for a query, and the result that is read after it.
  abbrev pub answer : Cache Q R I → Q → Bool × Option R
  answer c q = let asked = is_cached eq access c q in (asked.1, result eq access asked.0)

  -- The result stored for a query.
  abbrev pub stored : Cache Q R I → Q → Option R
  stored c q = do entry ← find eq c.cache q; some entry.0

  answer-stored : (c : Cache Q R I) (q : Q) → answer c q ≡ (is_some (stored c q), stored c q)
  unfolding is_cached result
  answer-stored c q = elim (Option-cases (find eq c.cache q)) [
    | inl missing ↦ rw (is_cached, missing) refl
    | inr (entry, found) ↦
        rw
          (
            is_cached,
            found,
            find-assign_entry eq laws c.cache q q (entry.0, access entry.1),
            laws.refl_ q,
          )
          refl
  ]

  -- After `place`, `is_cached` answers that an equal query is cached and `result` gives the placed
  -- result; for every other query the two answer as before. The equality of queries is an
  -- equivalence.
  pub answer-place :
      (c : Cache Q R I) (q p : Q) (r : R) (info : I)
      → answer (place eq access c q r info) p ≡ (if eq p q then (true, some r) else answer c p)
  unfolding place
  answer-place c q p r info = elim (Bool-cases (eq p q)) [
    | inl same ↦ rw same (
        answer-stored (place eq access c q r info) p
        ∙ rw (find-assign_entry eq laws c.cache q p (r, info), same) refl)
    | inr other ↦ rw other (
        answer-stored (place eq access c q r info) p
        ∙ rw (find-assign_entry eq laws c.cache q p (r, info), other) (sym (answer-stored c p)))
  ]
