-- ===== src/PartialStore/Members.antt =====
-- The members of the groups and the map from variables to groups in
-- src/llvmsym/smtdatastore_partial.h: what an insertion, a union and an assignment leave in them.
use mathlib.Core.List.Memᴰ
use mathlib.Core.List.{Memᴰ}
use sym_divine.Base.{
  ℕ, ◌≡◌, ◌↔◌, ◌⊎◌, refl, ◌∙◌, true, false, some, List, [], ◌∷◌, ◌==◌, ltb, if◌then◌else◌,
  Bool-cases, inl, inr, arith, subst, ==_iff,
}
use sym_divine.Formula.{Ident, ident_eq}
use sym_divine.Formula.Order.{ident_lt}
use sym_divine.Formula.Substitute.Laws.{ident_eq-eq}
use sym_divine.Groups.{insert_member, insert_members}
use sym_divine.PartialStore.{find_ident, assign_ident, assign_all, insert_id}

pub ident_eq_self : (v : Ident) → ident_eq v v ≡ true
ident_eq_self v = ground arith

not_less-eq : (v w : Ident) → ident_lt v w ≡ false → ident_lt w v ≡ false → v ≡ w
unfolding ident_lt
not_less-eq v w h k = ident_eq-eq v w (ground arith)

insert_member_iff :
    (v w : Ident) (is : List Ident) → Memᴰ w (insert_member v is) ↔ ((w ≡ v) ⊎ Memᴰ w is)
insert_member_iff v w [] = (
  (λ m. elim (Memᴰ.cases_cons m) [ inl e ↦ inl e | inr m' ↦ inr m' ]),
  (λ x. elim x [ inl e ↦ Memᴰ.head e | inr m ↦ absurd (Memᴰ.not-nil m) ]),
)
insert_member_iff v w (i ∷ is) =
    let (to, from) = insert_member_iff v w is in
    elim (Bool-cases (ident_lt v i)) [
      | inl less ↦ rw less (
        (λ m. elim (Memᴰ.cases_cons m) [ inl e ↦ inl e | inr m' ↦ inr m' ]),
        (λ x. elim x [ inl e ↦ Memᴰ.head e | inr m ↦ Memᴰ.tail m ]),
      )
      | inr not_less ↦ rw not_less elim (Bool-cases (ident_lt i v)) [
        | inl above ↦ rw above (
          (λ m. elim (Memᴰ.cases_cons m) [
            | inl e ↦ inr (Memᴰ.head e)
            | inr m' ↦ elim (to m') [ inl e ↦ inl e | inr m'' ↦ inr (Memᴰ.tail m'') ]
          ]),
          (λ x. elim x [
            | inl e ↦ Memᴰ.tail (from (inl e))
            | inr m ↦ elim (Memᴰ.cases_cons m) [
              | inl e ↦ Memᴰ.head e
              | inr m' ↦ Memᴰ.tail (from (inr m'))
            ]
          ]),
        )
        | inr same ↦ rw same (
          (λ m. inr m),
          (λ x. elim x [ inl e ↦ Memᴰ.head (e ∙ not_less-eq v i not_less same) | inr m ↦ m ]),
        )
      ]
    ]

pub insert_members_iff :
    (w : Ident) (is into : List Ident) → Memᴰ w (insert_members is into) ↔ (Memᴰ w is ⊎ Memᴰ w into)
insert_members_iff w [] into =
    ((λ m. inr m), (λ x. elim x [ inl m ↦ absurd (Memᴰ.not-nil m) | inr m ↦ m ]))
insert_members_iff w (i ∷ is) into =
    let (to, from) = insert_members_iff w is (insert_member i into) in
    let (to', from') = insert_member_iff i w into in
    (
      (λ m. elim (to m) [
        | inl m' ↦ inl (Memᴰ.tail m')
        | inr m' ↦ elim (to' m') [ inl e ↦ inl (Memᴰ.head e) | inr old ↦ inr old ]
      ]),
      (λ x. elim x [
        | inl m ↦ elim (Memᴰ.cases_cons m) [
          | inl e ↦ from (inr (from' (inl e)))
          | inr m' ↦ from (inl m')
        ]
        | inr old ↦ from (inr (from' (inr old)))
      ]),
    )

pub find-assign_ident :
    (w v : Ident) (id : ℕ) (names : List (Ident × ℕ))
    → find_ident w (assign_ident v id names)
      ≡ (if ident_eq w v then some id else find_ident w names)
find-assign_ident w v id [] = refl
find-assign_ident w v id ((i, old) ∷ names) = elim (Bool-cases (ident_eq v i)) [
  | inl hit ↦ rw (hit, ident_eq-eq v i hit) (if_if (ident_eq w i))
  | inr miss ↦
      rw (miss, find-assign_ident w v id names)
        elim (Bool-cases (ident_eq w i)) [
          | inl here ↦ rw here elim (Bool-cases (ident_eq w v)) [
            | inl also ↦
                let wrong : ident_eq v i ≡ true =
                  subst (λ u. ident_eq u i ≡ true) (ident_eq-eq w v also) here in
                cc
            | inr not_v ↦ rw not_v refl
          ]
          | inr not_here ↦ rw not_here refl
        ]
]
  where
    if_if :
        (b : _)
        → (if b then some id else find_ident w names)
          ≡ (if b then some id else if b then some old else find_ident w names)
    if_if true = refl
    if_if false = refl

-- A variable is assigned if it stands in the list, and left as it was if not.
pub find-assign_all :
    (w : Ident) (vars : List Ident) (id : ℕ) (names : List (Ident × ℕ))
    → (Memᴰ w vars × (find_ident w (assign_all vars id names) ≡ some id))
      ⊎ ((¬ Memᴰ w vars) × (find_ident w (assign_all vars id names) ≡ find_ident w names))
find-assign_all w [] id names = inr (Memᴰ.not-nil, refl)
find-assign_all w (v ∷ vars) id names =
    let one = find-assign_ident w v id names in
    elim (find-assign_all w vars id (assign_ident v id names)) [
      | inl (m, e) ↦ inl (Memᴰ.tail m, e)
      | inr (absent, e) ↦ elim (Bool-cases (ident_eq w v)) [
        | inl hit ↦ inl (Memᴰ.head (ident_eq-eq w v hit), e ∙ one ∙ rw hit refl)
        | inr miss ↦ inr (
          (λ m. elim (Memᴰ.cases_cons m) [
            | inl same ↦
                let wrong : ident_eq w v ≡ true =
                  subst (λ u. ident_eq w u ≡ true) same (ident_eq_self w) in
                cc
            | inr m' ↦ absent m'
          ]),
          e ∙ one ∙ rw miss refl,
        )
      ]
    ]

pub insert_id-Mem : (id : ℕ) (is : List ℕ) → Memᴰ id (insert_id id is)
insert_id-Mem id [] = Memᴰ.head refl
insert_id-Mem id (i ∷ is) = elim (Bool-cases (ltb id i)) [
  | inl less ↦ rw less (Memᴰ.head refl)
  | inr not_less ↦ rw not_less elim (Bool-cases (id == i)) [
    | inl same ↦ rw same (Memᴰ.head ((==_iff id i).0 same))
    | inr other ↦ rw other (Memᴰ.tail (insert_id-Mem id is))
  ]
]

pub insert_id-old : (k id : ℕ) (is : List ℕ) → Memᴰ k is → Memᴰ k (insert_id id is)
insert_id-old k id [] m = absurd (Memᴰ.not-nil m)
insert_id-old k id (i ∷ is) m = elim (Bool-cases (ltb id i)) [
  | inl less ↦ rw less (Memᴰ.tail m)
  | inr not_less ↦ rw not_less elim (Bool-cases (id == i)) [
    | inl same ↦ rw same m
    | inr other ↦ rw other elim (Memᴰ.cases_cons m) [
      | inl e ↦ Memᴰ.head e
      | inr m' ↦ Memᴰ.tail (insert_id-old k id is m')
    ]
  ]
]
