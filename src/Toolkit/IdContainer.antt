-- ===== src/Toolkit/IdContainer.antt =====
-- `IdContainer` of src/toolkit/utils.h: a map whose ids are given out by the container. `std::map` is an
-- association list without repeated ids, and `unused` a vector with its back at the end. `none` is
-- the back of an empty vector, or the erasure of an id that is not there.
pub mod Entries
pub mod Fresh
use sym_divine.Base.{
  ℕ, ◌+◌, ◌%◌, Option, none, some, List, [], ◌∷◌, ◌==◌, if◌then◌else◌, length, back?, pop_back,
  push_back, map, ◌>>=◌,
}
use sym_divine.Datastore.Words.{u64}

abbrev pub lookup {ℓ} : {A : Type ℓ} → ℕ → List (ℕ × A) → Option A
lookup id [] = none
lookup id ((k, v) ∷ values) = let later = lookup id values in if id == k then some v else later

-- `values.insert( { id, item } )`: an entry that is there stays.
abbrev pub insert_entry {ℓ} : {A : Type ℓ} → ℕ → A → List (ℕ × A) → List (ℕ × A)
insert_entry id item [] = (id, item) ∷ []
insert_entry id item ((k, v) ∷ values) =
    let later : List (_ × _) = insert_entry id item values in
    if id == k then (k, v) ∷ values else (k, v) ∷ later

abbrev pub erase_entry {ℓ} : {A : Type ℓ} → ℕ → List (ℕ × A) → List (ℕ × A)
erase_entry id [] = []
erase_entry id ((k, v) ∷ values) =
    let later : List (_ × _) = erase_entry id values in if id == k then later else (k, v) ∷ later

-- `if ( unused.empty() ) unused.push_back( i + 1 )`
abbrev pub refill : ℕ → List ℕ → List ℕ
refill i [] = (i + 1) % u64 ∷ []
refill i (j ∷ unused) = j ∷ unused

pub record Container {ℓ} (A : Type ℓ) : Type ℓ where
  pub values : List (ℕ × A)
  pub unused : List ℕ

module _ {ℓ} {A : Type ℓ} where
  abbrev pub new_container : Container A
  new_container = record { values = []; unused = 1 ∷ [] }

  unfoldable pub size : Container A → ℕ
  size c = length c.values

  -- `insert( id, item )`
  unfoldable pub insert_at_id : Container A → ℕ → A → Container A
  insert_at_id c id item = record c { values = insert_entry id item c.values }

  -- `insert( item )`, and the id that it gives
  unfoldable pub insert : Container A → A → Option (Container A × ℕ)
  insert c item = do
    i ← back? c.unused
    some
        (record { values = insert_entry i item c.values; unused = refill i (pop_back c.unused) }, i)

  -- `erase( i )`
  unfoldable pub erase : Container A → ℕ → Option (Container A)
  erase c i = do
    item ← lookup i c.values
    some (record { values = erase_entry i c.values; unused = push_back c.unused i })

  unfoldable pub clear : Container A → Container A
  clear c = record { values = []; unused = 0 ∷ [] }
