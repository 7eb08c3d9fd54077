-- ===== src/Toolkit/Tests.antt =====
-- The containers of src/toolkit on small inputs.
use sym_divine.Base.{
  ℕ, ◌+◌, ◌≡◌, ◌≢◌, refl, Bool, true, false, none, some, List, [], ◌∷◌, ◌==◌, ==_self, ltb, Returns,
  arith,
}
use sym_divine.Toolkit.IdContainer.{Container, lookup, insert, insert_at_id, erase}
use sym_divine.Toolkit.IdContainer.Fresh.{Reach, start, inserted, erased, insert_fresh}
use sym_divine.Toolkit.UnionSet.{Node, parent_of, get_set, join}
use sym_divine.Toolkit.UnionSet.Join.{get_set-join}
use sym_divine.Toolkit.Merges.{set_intersection_diff}
use sym_divine.Toolkit.QueryCache.{Cache, IsEquality, place, answer, answer-place}

-- Two items were inserted, and the first one erased.
abbrev one_left : Container ℕ
one_left = record { values = (2, 20) ∷ []; unused = 3 ∷ 1 ∷ [] }

one_left-Reach : Reach 2 one_left
unfolding insert erase
one_left-Reach = erased 1 (inserted 20 2 (inserted 10 1 start refl) refl) refl

insert_fresh_example : Returns (insert one_left 30) λ r.
    (lookup r.1 one_left.values ≡ none)
    × (lookup r.1 r.0.values ≡ some 30)
    × ((j : ℕ) → j ≢ r.1 → lookup j r.0.values ≡ lookup j one_left.values)
    × (Returns
        (insert (insert_at_id one_left r.1 40) 30)
        λ q. (q.1 ≡ r.1) × (lookup q.1 q.0.values ≡ some 40))
insert_fresh_example = insert_fresh 2 one_left 30 40 (omega arith) one_left-Reach

-- A node below another one, and a single node.
abbrev forest : List (Node ℕ ℕ)
forest =
    record { data_ = 10; tag = 1; parent = none; depth = 1 }
    ∷ record { data_ = 11; tag = 1; parent = some 0; depth = 0 }
    ∷ record { data_ = 12; tag = 5; parent = none; depth = 0 }
    ∷ []

-- The deeper set is put below the single node, so that the way from node 1 has two steps.
get_set-join_example :
    Returns (join (λ a b. a + b) forest 0 2) λ joined. get_set 3 joined 1 ≡ some 2
unfolding get_set parent_of
get_set-join_example =
    get_set-join (λ a b. a + b) forest 0 2 2 1 0
      (record { data_ = 10; tag = 1; parent = none; depth = 1 })
      (record { data_ = 12; tag = 5; parent = none; depth = 0 }) refl refl refl refl
      (λ e. absurd (omega arith)) refl

merged : set_intersection_diff ltb (1 ∷ 2 ∷ 4 ∷ []) (2 ∷ 3 ∷ 4 ∷ []) ≡ (2 ∷ 4 ∷ [], 2 ∷ 4 ∷ [])
unfolding set_intersection_diff
merged = refl

abbrev used_cache : Cache ℕ Bool ℕ
used_cache = record {
  last_cached = none;
  last_res = none;
  hit_count = 0;
  miss_count = 0;
  replace_count = 0;
  cache = (7, (true, 0)) ∷ [];
}

number_equality : IsEquality ◌==◌
number_equality = record {
  refl_ = ==_self;
  sym_ = λ a b h. ground arith;
  trans_ = λ a b c h k. ground arith;
}

answer-place_example :
    answer ◌==◌ (λ n. n + 1) number_equality (place ◌==◌ (λ n. n + 1) used_cache 7 false 0) 7
    ≡ (true, some false)
answer-place_example = answer-place ◌==◌ (λ n. n + 1) number_equality used_cache 7 7 false 0
