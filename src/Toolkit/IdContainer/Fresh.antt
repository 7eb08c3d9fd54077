-- ===== src/Toolkit/IdContainer/Fresh.antt =====
-- The ids that `IdContainer` of src/toolkit/utils.h gives out: an id is never given out while it is used.
use sym_divine.Base.{
  ℕ, suc, ◌+◌, ◌%◌, ◌≤◌, ◌<◌, ◌≡◌, ◌≢◌, refl, sym, ap, ◌∙◌, none, some, List, [], ◌∷◌, ltb, ltb→lt,
  back?, pop_back, back?-push_back, pop_back-push_back, some_inj, >>=-eq-some, push_back, All,
  subst, All-append, All-mono, Returns, Bool-cases, inl, inr, arith,
}
use sym_divine.Datastore.Words.{u64}
use sym_divine.Toolkit.IdContainer.{
  lookup, insert_entry, erase_entry, refill, Container, new_container, insert, insert_at_id, erase,
  clear,
}
use sym_divine.Toolkit.IdContainer.Entries.{
  Distinct, Last-cases, All-front, Distinct-front, Distinct-push_back, lookup-insert_entry,
  lookup-insert_entry_ne, lookup-insert_entry_there, lookup-erase_entry, lookup-erase_entry-none,
}

module _ {ℓ} {A : Type ℓ} where
  -- The unused ids after the first one are distinct and free, and every id from the first one on is
  -- free. `bound` is the first unused id, at the front of the vector.

  pub record IsContainer (c : Container A) (bound : ℕ) (rest : List ℕ) : Type ℓ where
    pub shape : c.unused ≡ bound ∷ rest
    pub below : All (λ i. i < bound) rest
    pub free : All (λ i. lookup i c.values ≡ none) rest
    pub distinct : Distinct rest
    pub beyond : (i : ℕ) → bound ≤ i → lookup i c.values ≡ none

  -- What a call of `insert` does.
  abbrev pub Inserted : Container A → A → ℕ → Container A × ℕ → Type ℓ
  Inserted c item limit (d, i) =
      (lookup i c.values ≡ none)
      × (lookup i d.values ≡ some item)
      × ((j : ℕ) → j ≢ i → lookup j d.values ≡ lookup j c.values)
      × ((bound : ℕ) × (rest : List ℕ) × IsContainer d bound rest × (bound ≤ limit + 1))

  -- The id is the only unused one.
  insert_last :
      (c : Container A) (bound : ℕ) (item : A)
      → IsContainer c bound []
      → bound + 1 < u64
      → Returns (insert c item) (Inserted c item bound)
  unfolding insert
  insert_last c bound item h room =
      let next : (bound + 1) % u64 ≡ bound + 1 = omega arith in
      let free = h.beyond bound (omega arith) in
      let values = insert_entry bound item c.values in
      (
        (record { values = values; unused = (bound + 1) ∷ [] }, bound),
        rw (h.shape, next) refl,
        (
          free,
          lookup-insert_entry bound item c.values free,
          (λ j other. lookup-insert_entry_ne bound j item c.values other),
          (
            bound + 1,
            [],
            record {
              shape = refl;
              below = tt;
              free = tt;
              distinct = tt;
              beyond = λ j le.
                  lookup-insert_entry_ne bound j item c.values (λ e. absurd (omega arith))
                  ∙ h.beyond j (omega arith);
            },
            omega arith,
          ),
        ),
      )

  -- The id was given out before, and erased.
  insert_again :
      (c : Container A) (bound : ℕ) (front : List ℕ) (i : ℕ) (item : A)
      → IsContainer c bound (push_back front i)
      → Returns (insert c item) (Inserted c item bound)
  unfolding insert
  insert_again c bound front i item h =
      let last : back? c.unused ≡ some i = rw h.shape (back?-push_back (bound ∷ front) i) in
      let others : pop_back c.unused ≡ bound ∷ front =
        rw h.shape (pop_back-push_back (bound ∷ front) i) in
      let (frees, free) = All-front _ front i h.free in
      let (belows, below) = All-front _ front i h.below in
      let (distincts, apart) = Distinct-front front i h.distinct in
      (
        (record { values = insert_entry i item c.values; unused = bound ∷ front }, i),
        rw (last, others) refl,
        (
          free,
          lookup-insert_entry i item c.values free,
          (λ j other. lookup-insert_entry_ne i j item c.values other),
          (
            bound,
            front,
            record {
              shape = refl;
              below = belows;
              free = still_free front apart frees;
              distinct = distincts;
              beyond = λ j le.
                  lookup-insert_entry_ne i j item c.values (λ e. absurd (omega arith))
                  ∙ h.beyond j le;
            },
            omega arith,
          ),
        ),
      )
    where
      still_free :
          (is : List ℕ)
          → All (λ j. j ≢ i) is
          → All (λ j. lookup j c.values ≡ none) is
          → All (λ j. lookup j (insert_entry i item c.values) ≡ none) is
      still_free [] apart free = tt
      still_free (j ∷ is) apart free =
          (lookup-insert_entry_ne i j item c.values apart.0 ∙ free.0, still_free is apart.1 free.1)

  pub insert-IsContainer :
      (c : Container A) (bound : ℕ) (rest : List ℕ) (item : A)
      → IsContainer c bound rest
      → bound + 1 < u64
      → Returns (insert c item) (Inserted c item bound)
  insert-IsContainer c bound rest item h room = elim (Last-cases rest) [
    | inl e ↦ insert_last c bound item (rw e at h) room
    | inr (front, i, e) ↦ insert_again c bound front i item (rw e at h)
  ]

  erase-IsContainer :
      (c : Container A) (bound : ℕ) (rest : List ℕ) (i : ℕ) (item : A)
      → IsContainer c bound rest
      → lookup i c.values ≡ some item
      → IsContainer
          (record { values = erase_entry i c.values; unused = push_back c.unused i })
          bound
          (push_back rest i)
  erase-IsContainer c bound rest i item h found =
      let inside : i < bound = elim (Bool-cases (ltb i bound)) [
        | inl less ↦ ltb→lt i bound less
        | inr not_less ↦ let free = h.beyond i (ground arith) in cc
      ] in
      record {
        shape = ap (λ us. push_back us i) h.shape;
        below = All-append _ rest (i ∷ []) h.below (inside, tt);
        free =
            All-append _ rest (i ∷ [])
              (All-mono (λ j. lookup-erase_entry-none i j c.values) rest h.free)
              (lookup-erase_entry i c.values, tt);
        distinct = Distinct-push_back rest i h.distinct (All-mono apart rest h.free);
        beyond = λ j le. lookup-erase_entry-none i j c.values (h.beyond j le);
      }
    where
      apart : (j : ℕ) → lookup j c.values ≡ none → j ≢ i
      apart j free same = let wrong = rw same at free in cc

  -- `insert( id, other )` leaves the id where `insert` takes it from.
  insert-taken :
      (c : Container A) (item other : A) (r : Container A × ℕ)
      → insert c item ≡ some r
      → lookup r.1 c.values ≡ none
      → Returns
          (insert (insert_at_id c r.1 other) item)
          λ q. (q.1 ≡ r.1) × (lookup q.1 q.0.values ≡ some other)
  unfolding insert insert_at_id
  insert-taken c item other r e free =
      let (i, last, same) = >>=-eq-some (back? c.unused) _ e in
      let id : i ≡ r.1 = ap (λ (q : Container A × ℕ). q.1) (some_inj same) in
      let used : lookup i (insert_entry r.1 other c.values) ≡ some other =
        subst (λ j. lookup j (insert_entry r.1 other c.values) ≡ some other) (sym id)
          (lookup-insert_entry r.1 other c.values free) in
      let again : Container A × ℕ = (
        record {
          values = insert_entry i item (insert_entry r.1 other c.values);
          unused = refill i (pop_back c.unused);
        },
        i,
      ) in
      (
        again,
        rw last refl,
        (id, lookup-insert_entry_there i item other (insert_entry r.1 other c.values) used),
      )

  -- The containers that calls of `insert( item )`, `erase` and `clear` reach from a new one, with the number
  -- of calls of `insert`.
  pub data Reach : ℕ → Container A → Type ℓ where
    start : Reach 0 new_container
    inserted :
        {n : ℕ} {c d : Container A} (item : A) (i : ℕ)
        → Reach n c
        → insert c item ≡ some (d, i)
        → Reach (suc n) d
    erased : {n : ℕ} {c d : Container A} (i : ℕ) → Reach n c → erase c i ≡ some d → Reach n d
    cleared : {n : ℕ} {c : Container A} → Reach n c → Reach n (clear c)

  Reach-IsContainer :
      {n : ℕ} {c : Container A}
      → n + 2 < u64
      → Reach n c
      → (bound : ℕ) × (rest : List ℕ) × IsContainer c bound rest × (bound ≤ n + 1)
  unfolding erase clear
  Reach-IsContainer room start = (
    1,
    [],
    record { shape = refl; below = tt; free = tt; distinct = tt; beyond = λ i le. refl },
    omega arith,
  )
  Reach-IsContainer room (inserted {n} {c} {d} item i r e) =
      let (bound, rest, h, le) = Reach-IsContainer (omega arith) r in
      let (result, runs, done) = insert-IsContainer c bound rest item h (omega arith) in
      let (free, found, others, next) = done in
      let (bound', rest', h', le') = next in
      let same : result.0 ≡ d = ap (λ (q : Container A × ℕ). q.0) (some_inj (sym runs ∙ e)) in
      (bound', rest', rw same at h', omega arith)
  Reach-IsContainer room (erased {n} {c} {d} i r e) =
      let (bound, rest, h, le) = Reach-IsContainer room r in
      let (item, found, same) = >>=-eq-some (lookup i c.values) _ e in
      let kept = erase-IsContainer c bound rest i item h found in
      (bound, push_back rest i, rw (some_inj same) at kept, le)
  Reach-IsContainer room (cleared {n} {c} r) = (
    0,
    [],
    record { shape = refl; below = tt; free = tt; distinct = tt; beyond = λ i le. refl },
    omega arith,
  )

  -- In every container that calls of `insert( item )`, `erase` and `clear` reach, with fewer than 2^64 - 2
  -- calls of `insert`, the next `insert` runs to its end and gives an id that was not in use; it finds the
  -- new item under the id, and what it finds under every other id stays. After `insert( id, other )`
  -- with this same id, `insert` still gives it, though it is in use, and the container keeps `other`.
  pub insert_fresh :
      (n : ℕ) (c : Container A) (item other : A)
      → n + 2 < u64
      → Reach n c
      → Returns (insert c item) λ r.
        (lookup r.1 c.values ≡ none)
        × (lookup r.1 r.0.values ≡ some item)
        × ((j : ℕ) → j ≢ r.1 → lookup j r.0.values ≡ lookup j c.values)
        × (Returns
            (insert (insert_at_id c r.1 other) item)
            λ q. (q.1 ≡ r.1) × (lookup q.1 q.0.values ≡ some other))
  insert_fresh n c item other room r =
      let (bound, rest, h, le) = Reach-IsContainer (omega arith) r in
      let (result, runs, done) = insert-IsContainer c bound rest item h (omega arith) in
      let (free, found, others, next) = done in
      (result, runs, (free, found, others, insert-taken c item other result runs free))
