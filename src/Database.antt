-- ===== src/Database.antt =====
-- The store of visited states, `Database` and `LinearCandidate` of src/llvmsym/blobing.h. A state has an
-- explicit part, compared by `ExplEqual`, and a symbolic part, compared by `Hit`; both comparisons, and
-- the two parts themselves, are parameters. The hash tables are association lists, since the hashes
-- only speed them up, and the bytes of a `Blob` are not modelled. `none` is an exception or an access
-- out of bounds.
pub mod Candidate
pub mod Tables
pub mod Located
pub mod Laws
pub mod Insertion
pub mod Stored
pub mod Growth
mod Tests
use sym_divine.Base.{
  ℕ, suc, ◌+◌, Bool, true, false, ◌&&◌, Option, none, some, List, [], ◌∷◌, ◌==◌, if◌then◌else◌,
  length, get_elem?, set, push_back, ◌>>=◌, ensure,
}
use sym_divine.Database.Candidate.{
  insert_check_candidate, insert_candidate, seen_candidate, get_candidate,
}

pub record StateId : Type 0 where
  pub exp_id : ℕ
  pub sym_id : ℕ

abbrev pub id_eq : StateId → StateId → Bool
id_eq a b = a.exp_id == b.exp_id && a.sym_id == b.sym_id

pub record State {ℓ κ} (E : Type ℓ) (S : Type κ) : Type (ℓ ⊔ κ) where
  pub expl : E
  pub symb : S

-- `ExplicitItem`
pub record Item {ℓ κ} (E : Type ℓ) (S : Type κ) : Type (ℓ ⊔ κ) where
  pub explicit_id : ℕ
  pub exp_state : E
  pub sym_container : List S

pub record Database {ℓ κ} (E : Type ℓ) (S : Type κ) : Type (ℓ ⊔ κ) where
  pub items : List (Item E S)
  pub state2item_table : List (E × ℕ)
  pub id2item_table : List (StateId × ℕ)
  pub id_counter : ℕ

-- `find` in a hash table with the given equality of keys.
abbrev pub find {ℓ κ} : {K : Type ℓ} {V : Type κ} → (K → K → Bool) → List (K × V) → K → Option V
find eq [] key = none
find eq ((k, v) ∷ table) key = if eq key k then some v else find eq table key

-- `insert` into a hash table: a key that is there keeps its value.
abbrev pub insert_pair {ℓ κ} :
    {K : Type ℓ} {V : Type κ} → (K → K → Bool) → List (K × V) → K → V → List (K × V)
insert_pair eq [] key v = (key, v) ∷ []
insert_pair eq ((k, w) ∷ table) key v =
    let rest : List (_ × _) = insert_pair eq table key v in
    if eq key k then (k, w) ∷ table else (k, w) ∷ rest

abbrev pub empty_database {ℓ κ} : {E : Type ℓ} {S : Type κ} → Database E S
empty_database = record { items = []; state2item_table = []; id2item_table = []; id_counter = 0 }

module _ {ℓ κ} {E : Type ℓ} {S : Type κ} (same : E → E → Bool) (hit : S → S → Bool) where
  unfoldable pub seen : Database E S → State E S → Option Bool
  seen db st = elim (find same db.state2item_table st.expl) [
    | none ↦ some false
    | some index ↦ do
      item ← get_elem? db.items index
      some (seen_candidate hit item.sym_container st.symb)
  ]

  unfoldable pub seen_id : Database E S → StateId → Bool
  seen_id db id = elim (find id_eq db.id2item_table id) [ none ↦ false | some index ↦ true ]

  -- `insert` of a state whose explicit part is new.
  abbrev pub insert_new : Database E S → State E S → Database E S × StateId
  insert_new db st =
      let container : List S = insert_candidate [] st.symb in
      let id : StateId = record { exp_id = db.id_counter + 1; sym_id = length container } in
      let item : Item E S = record {
        explicit_id = db.id_counter + 1;
        exp_state = st.expl;
        sym_container = container;
      } in
      (
        record {
          items = push_back db.items item;
          state2item_table = insert_pair same db.state2item_table st.expl (length db.items);
          id2item_table = insert_pair id_eq db.id2item_table id (length db.items);
          id_counter = db.id_counter + 1;
        },
        id,
      )

  -- The item `index` with its container replaced, and the state's id put into the table.
  abbrev pub with_container : Database E S → ℕ → Item E S → List S → StateId → Database E S
  with_container db index item container id = record db {
    items = set db.items index (record item { sym_container = container });
    id2item_table = insert_pair id_eq db.id2item_table id index;
  }

  unfoldable pub insert : Database E S → State E S → Option (Database E S × StateId)
  insert db st = elim (find same db.state2item_table st.expl) [
    | none ↦ some (insert_new db st)
    | some index ↦ do
      item ← get_elem? db.items index
      let container : List S = insert_candidate item.sym_container st.symb
      let id : StateId = record { exp_id = item.explicit_id; sym_id = length container }
      some (with_container db index item container id, id)
  ]

  -- Whether the state is new, with its id.
  unfoldable pub insert_check : Database E S → State E S → Option (Database E S × Bool × StateId)
  insert_check db st = elim (find same db.state2item_table st.expl) [
    | none ↦ let (new_db, id) = insert_new db st in some (new_db, true, id)
    | some index ↦ do
      item ← get_elem? db.items index
      let (container, new, sym) = insert_check_candidate hit item.sym_container st.symb
      let id : StateId = record { exp_id = item.explicit_id; sym_id = sym }
      some (if new then with_container db index item container id else db, new, id)
  ]

  unfoldable pub get_state : Database E S → StateId → Option (State E S)
  get_state db id = do
    index ← find id_eq db.id2item_table id
    item ← get_elem? db.items index
    symb ← get_candidate item.sym_container id.sym_id
    some (record { expl = item.exp_state; symb = symb })

  unfoldable pub sizes : Database E S → List (E × ℕ) → Option ℕ
  sizes db [] = some 0
  sizes db ((e, index) ∷ table) = do
    item ← get_elem? db.items index
    rest ← sizes db table
    some (length item.sym_container + rest)

  unfoldable pub size : Database E S → Option ℕ
  size db = sizes db db.state2item_table
