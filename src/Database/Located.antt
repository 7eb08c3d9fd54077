-- ===== src/Database/Located.antt =====
-- The items that the ids name, after an item is appended or its container grows.
use sym_divine.Base.{
  ℕ, zero, suc, ◌≤◌, ◌≡◌, refl, Bool, ◌&&◌, Option, none, some, List, [], ◌∷◌, ◌==◌, if◌then◌else◌,
  length, get_elem?, set, push_back, ◌>>=◌, arith, some_inj,
}
use sym_divine.Database.{Item}
use sym_divine.Database.Candidate.{get_candidate}
use sym_divine.Database.Tables.{with_part, located_at}

pub suc_eq : (a b : ℕ) → (suc a == suc b) ≡ (a == b)
suc_eq a b = ground arith

get_candidate-push_back {κ} :
    {S : Type κ} {B : Type 0} (parts : List S) (st : S) (sym_id : ℕ) (b : Option B)
    → (get_candidate (push_back parts st) sym_id >>= λ p. b)
      ≡ (if sym_id == suc (length parts) then b else (get_candidate parts sym_id >>= λ p. b))
get_candidate-push_back parts st zero b = ground arith
get_candidate-push_back [] st (suc zero) b = ground arith
get_candidate-push_back [] st (suc (suc i)) b = ground arith
get_candidate-push_back (x ∷ parts) st (suc zero) b = ground arith
get_candidate-push_back (x ∷ parts) st (suc (suc i)) b =
    rw (suc_eq (suc i) (suc (length parts))) (get_candidate-push_back parts st (suc i) b)

same_index :
    (k index : ℕ) (s : Bool) (w : Option ℕ)
    → (if k == index && s then some index else w) ≡ (if k == index && s then some k else w)
same_index k index s w = ground arith

get_candidate_past {κ ι} :
    {S : Type κ} {B : Type ι} (parts : List S) (b : Option B)
    → (get_candidate parts (suc (length parts)) >>= λ part. b) ≡ none
get_candidate_past [] b = refl
get_candidate_past (x ∷ parts) b = get_candidate_past parts b

module _ {ℓ κ} {E : Type ℓ} {S : Type κ} where
  abbrev pub grown : Item E S → S → Item E S
  grown item st = record item { sym_container = push_back item.sym_container st }

  with_part-set :
      (items : List (Item E S)) (k index : ℕ) (item : Item E S) (st : S) (sym_id : ℕ) (b : Option ℕ)
      → get_elem? items index ≡ some item
      → with_part (set items index (grown item st)) k sym_id b ≡ (
          if k == index && sym_id == suc (length item.sym_container)
          then b
          else with_part items k sym_id b)
  with_part-set [] k index item st sym_id b e = cc
  with_part-set (x ∷ items) zero zero item st sym_id b e =
      rw (some_inj e) (get_candidate-push_back item.sym_container st sym_id b)
  with_part-set (x ∷ items) (suc k) zero item st sym_id b e = ground arith
  with_part-set (x ∷ items) zero (suc index) item st sym_id b e = ground arith
  with_part-set (x ∷ items) (suc k) (suc index) item st sym_id b e =
      rw (suc_eq k index) (with_part-set items k index item st sym_id b e)

  with_part-push_back :
      (items : List (Item E S)) (k : ℕ) (item : Item E S) (st : S) (sym_id : ℕ) (b : Option ℕ)
      → item.sym_container ≡ st ∷ []
      → with_part (push_back items item) k sym_id b
        ≡ (if k == length items && sym_id == 1 then b else with_part items k sym_id b)
  with_part-push_back [] zero item st zero b e = ground arith
  with_part-push_back [] zero item st (suc i) b e = rw e (get_candidate-push_back [] st (suc i) b)
  with_part-push_back [] (suc k) item st sym_id b e = ground arith
  with_part-push_back (x ∷ items) zero item st sym_id b e = ground arith
  with_part-push_back (x ∷ items) (suc k) item st sym_id b e =
      rw (suc_eq k (length items)) (with_part-push_back items k item st sym_id b e)

  -- A growing container adds one id, that of its new part.
  pub located_at-set :
      (items : List (Item E S)) (index : ℕ) (item : Item E S) (st : S) (exp_id sym_id : ℕ)
      → get_elem? items index ≡ some item
      → (if exp_id == suc index && sym_id == suc (length item.sym_container)
          then some index
          else located_at items exp_id sym_id)
        ≡ located_at (set items index (grown item st)) exp_id sym_id
  located_at-set items index item st zero sym_id e = ground arith
  located_at-set items index item st (suc k) sym_id e =
      rw (suc_eq k index, with_part-set items k index item st sym_id (some k) e)
        (same_index k index _ _)

  -- An appended item with one part adds one id.
  pub located_at-push_back :
      (items : List (Item E S)) (item : Item E S) (st : S) (exp_id sym_id : ℕ)
      → item.sym_container ≡ st ∷ []
      → (if exp_id == suc (length items) && sym_id == 1
          then some (length items)
          else located_at items exp_id sym_id)
        ≡ located_at (push_back items item) exp_id sym_id
  located_at-push_back items item st zero sym_id e = ground arith
  located_at-push_back items item st (suc k) sym_id e =
      rw (suc_eq k (length items), with_part-push_back items k item st sym_id (some k) e)
        (same_index k (length items) _ _)

  with_part_fresh :
      (items : List (Item E S)) (k sym_id : ℕ) (b : Option ℕ)
      → length items ≤ k
      → with_part items k sym_id b ≡ none
  with_part_fresh [] k sym_id b h = refl
  with_part_fresh (x ∷ items) zero sym_id b h = absurd (omega arith)
  with_part_fresh (x ∷ items) (suc k) sym_id b h = with_part_fresh items k sym_id b (omega arith)

  pub located_at-fresh_item :
      (items : List (Item E S)) (sym_id : ℕ) → located_at items (suc (length items)) sym_id ≡ none
  located_at-fresh_item items sym_id = with_part_fresh items (length items) sym_id _ (omega arith)

  -- The next id of an item is not taken.
  pub located_at-fresh_part :
      (items : List (Item E S)) (index : ℕ) (item : Item E S)
      → get_elem? items index ≡ some item
      → located_at items (suc index) (suc (length item.sym_container)) ≡ none
  located_at-fresh_part items index item e = go items index (some index) e
    where
      go :
          (rest : List (Item E S)) (k : ℕ) (b : Option ℕ)
          → get_elem? rest k ≡ some item
          → with_part rest k (suc (length item.sym_container)) b ≡ none
      go [] k b f = cc
      go (x ∷ rest) zero b f = rw (some_inj f) (get_candidate_past item.sym_container b)
      go (x ∷ rest) (suc k) b f = go rest k b f
