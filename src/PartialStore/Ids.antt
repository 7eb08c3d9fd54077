-- ===== src/PartialStore/Ids.antt =====
-- The sets of ids and the vectors in src/llvmsym/smtdatastore_partial.h: sets rise strictly, and a
-- predicate holds of all elements of two joined vectors if it holds of those of each.
use sym_divine.Base.{
  ℕ, ◌<◌, ◌≡◌, ◌↔◌, refl, Bool, false, ◌&&◌, some, List, [], ◌∷◌, ◌++◌, ◌==◌, ltb, Bool-cases, inl,
  inr, arith, All, All-mono, back?, pop_back, push_back, ltb→lt,
}
use sym_divine.Formula.Order.{def_lt}
use sym_divine.Formula.Substitute.{Definition}
use sym_divine.SmtStore.Queries.{is_nil}
use sym_divine.Groups.{DependencyGroup, merge_definitions}
use sym_divine.Toolkit.IdContainer
use sym_divine.Toolkit.IdContainer.{Container, insert_entry, erase_entry, refill}
use sym_divine.PartialStore.{insert_id}
use sym_divine.PartialStore.Entries.{}

abbrev pub Rising : List ℕ → Type 0
Rising [] = Unit
Rising (i ∷ is) = All (λ j. i < j) is × Rising is

pub insert_id-above :
    (k id : ℕ) (is : List ℕ) → k < id → All (λ j. k < j) is → All (λ j. k < j) (insert_id id is)
insert_id-above k id [] h hs = (h, tt)
insert_id-above k id (i ∷ is) h hs =
    let later = insert_id-above k id is h hs.1 in ground (arith, hs, later)

pub insert_id-Rising : (id : ℕ) (is : List ℕ) → Rising is → Rising (insert_id id is)
insert_id-Rising id [] h = (tt, tt)
insert_id-Rising id (i ∷ is) h = elim (Bool-cases (ltb id i)) [
  | inl less ↦
      let first = ltb→lt id i less in rw less ((first, All-mono (λ j above. omega arith) is h.0), h)
  | inr not_less ↦ rw not_less elim (Bool-cases (id == i)) [
    | inl same ↦ rw same h
    | inr other ↦
        let above : i < id = ground arith in
        rw other (insert_id-above i id is above h.0, insert_id-Rising id is h.1)
  ]
]

pub insert_id-ne : (id : ℕ) (is : List ℕ) → is_nil (insert_id id is) ≡ false
insert_id-ne id [] = refl
insert_id-ne id (i ∷ is) = ground arith

pub back?-some : (is : List ℕ) → is_nil is ≡ false → (i : ℕ) × (back? is ≡ some i)
back?-some [] h = cc
back?-some (i ∷ []) h = (i, refl)
back?-some (i ∷ j ∷ is) h = back?-some (j ∷ is) refl

pub push_back-ne : (is : List ℕ) (i : ℕ) → is_nil (push_back is i) ≡ false
push_back-ne [] i = refl
push_back-ne (j ∷ is) i = refl

pub refill-ne : (i : ℕ) (is : List ℕ) → is_nil (refill i is) ≡ false
refill-ne i [] = refl
refill-ne i (j ∷ is) = refl

pub insert_runs :
    (c : Container DependencyGroup) (g : DependencyGroup)
    → is_nil c.unused ≡ false
    → (i : ℕ) × (IdContainer.insert c g
        ≡ some (
          record { values = insert_entry i g c.values; unused = refill i (pop_back c.unused) },
          i,
        ))
unfolding IdContainer.insert
insert_runs c g ne = let (i, last) = back?-some c.unused ne in (i, rw last refl)

pub and_false : (a b : Bool) → b ≡ false → (a && b) ≡ false
and_false a b h = ground arith

pub All-append_iff {ℓ} :
    {A : Type ℓ} (P : A → Type 0) (xs ys : List A) → All P (xs ++ ys) ↔ (All P xs × All P ys)
All-append_iff P [] ys = ((λ h. (tt, h)), (λ h. h.1))
All-append_iff P (x ∷ xs) ys =
    let (to, from) = All-append_iff P xs ys in
    ((λ h. ((h.0, (to h.1).0), (to h.1).1)), (λ h. (h.0.0, from (h.0.1, h.1))))

pub All-merge_iff :
    (P : Definition → Type 0) (ds es : List Definition)
    → All P (merge_definitions ds es) ↔ (All P ds × All P es)
All-merge_iff P [] [] = ((λ h. (tt, tt)), (λ h. tt))
All-merge_iff P (d ∷ ds) [] = ((λ h. (h, tt)), (λ h. h.0))
All-merge_iff P [] (e ∷ es) = ((λ h. (tt, h)), (λ h. h.1))
All-merge_iff P (d ∷ ds) (e ∷ es) =
    let (to, from) = All-merge_iff P ds (e ∷ es) in
    let (to', from') = All-merge_iff P (d ∷ ds) es in
    elim (Bool-cases (def_lt e d)) [
      | inl less ↦
          rw less ((λ h. ((to' h.1).0, (h.0, (to' h.1).1))), (λ h. (h.1.0, from' (h.0, h.1.1))))
      | inr not_less ↦
          rw not_less ((λ h. ((h.0, (to h.1).0), (to h.1).1)), (λ h. (h.0.0, from (h.0.1, h.1))))
    ]
