-- ===== src/Reachability/Verdict.antt =====
-- The start of the search, and what its answer "Safe." means.
use sym_divine.Base.{
  ℕ, ◌≡◌, refl, sym, ◌∙◌, ◌⊎◌, inl, inr, Bool, true, false, none, some, List, [], ◌∷◌,
  if◌then◌else◌, Returns, All, Bool-cases, some_inj, subst,
}
use sym_divine.Database.{Database, State, StateId, id_eq, get_state}
use sym_divine.Database.Tables.{IsIndexed}
use sym_divine.Database.{empty_database, insert_new, insert}
use sym_divine.Database.Laws.{empty_database-IsIndexed}
use sym_divine.Database.Tables.{miss}
use sym_divine.Database.Insertion.{insert_new-IsStored}
use sym_divine.Database.Growth.{insert_new-Growth}
use sym_divine.Reachability.{start, run, Search}
use sym_divine.Reachability.Invariant.{Queued, IsCovered, none-some, IsSearch}
use sym_divine.Reachability.Safety.{Nothing, Invariant, Ends, Safe, loop-IsSearch}

module _ {ℓ κ} {E : Type ℓ} {S : Type κ} (same : E → E → Bool) (hit : S → S → Bool)
    (same_refl : (e : E) → same e e ≡ true) (hit_refl : (x : S) → hit x x ≡ true)
    (advance : State E S → List (State E S × Bool)) where
  empty-none : (j : StateId) → get_state same hit (empty_database {E = E} {S = S}) j ≡ none
  unfolding get_state
  empty-none j = refl

  started-case :
      (db : Database E S) (j id : StateId) (x y : State E S)
      → (if id_eq j id then some x else get_state same hit (empty_database {E = E} {S = S}) j)
        ≡ some y
      → Queued j (id ∷ []) ⊎ ⊥ ⊎ All (Safe same hit same_refl hit_refl advance db) (advance y)
  started-case db j id x y e = elim (Bool-cases (id_eq j id)) [
    | inl t ↦ inl (inl t)
    | inr f ↦ absurd (none-some (sym (empty-none j) ∙ miss _ _ _ f e))
  ]

  -- The search starts with the initial state stored and queued.
  start-IsSearch :
      (initial : State E S)
      → Returns (start same hit advance initial) λ s.
        Invariant same hit same_refl hit_refl advance s
        × IsCovered same hit same_refl hit_refl advance s.knowns initial
  unfolding start insert
  start-IsSearch initial =
      let empty : IsIndexed empty_database = empty_database-IsIndexed same hit in
      let (indexed, named) =
        insert_new-IsStored same hit same_refl hit_refl empty_database initial refl empty in
      let (expl, equal, adds) =
        insert_new-Growth same hit same_refl hit_refl empty_database initial empty indexed in
      let id = (insert_new same hit empty_database initial).1 in
      let (found, there, covers) = named in
      (
        _,
        refl,
        (
          record {
            indexed = indexed;
            queued = ((found, there), tt);
            expanded = λ quiet j y e. started-case _ j id _ y (sym (adds.1 j) ∙ e);
          },
          (id, found, there, covers.0, covers.1),
        ),
      )

  abbrev RunOutcome : State E S → Search E S × Bool → Type (ℓ ⊔ κ)
  RunOutcome initial r =
      Invariant same hit same_refl hit_refl advance r.0
      × IsCovered same hit same_refl hit_refl advance r.0.knowns initial
      × Ends same hit same_refl hit_refl advance r

  run_outcome :
      (n : ℕ) (initial : State E S) → Returns (run same hit advance n initial) (RunOutcome initial)
  unfolding run
  run_outcome n initial =
      let (first, started, (h, covered)) = start-IsSearch initial in
      let (r, looped, outcome) = loop-IsSearch same hit same_refl hit_refl advance n first h in
      (
        r,
        rw (started, looped),
        (
          outcome.0,
          (covered.0, covered.1, outcome.1 covered.0 covered.1 covered.2, covered.3, covered.4),
          outcome.2,
        ),
      )

  -- With reflexive comparisons, the search meets no exception of the database or the graph, whatever
  -- its fuel; what stands for the initial state stays stored, and in a search that has found no error
  -- every stored state is queued, or its successors are no errors and each has a stored state that
  -- stands for it.
  pub run-IsSearch :
      (n : ℕ) (initial : State E S)
      → Returns (run same hit advance n initial) λ r.
        IsSearch same hit same_refl hit_refl advance r.0 Nothing
        × IsCovered same hit same_refl hit_refl advance r.0.knowns initial
  run-IsSearch n initial =
      let (r, ran, facts) = run_outcome n initial in (r, ran, (facts.0, facts.1))

  -- The evaluator yields the state, with the test for an error.
  pub data Yields : List (State E S × Bool) → State E S → Bool → Type (ℓ ⊔ κ) where
    here :
        {x : State E S} {bad : Bool} {rest : List (State E S × Bool)}
        → Yields ((x, bad) ∷ rest) x bad
    later :
        {x : State E S} {bad : Bool} {p : State E S × Bool} {rest : List (State E S × Bool)}
        → Yields rest x bad
        → Yields (p ∷ rest) x bad

  -- The states that the program reaches from the initial one.
  pub data Reaches : State E S → State E S → Type (ℓ ⊔ κ) where
    initially : {x : State E S} → Reaches x x
    then_advance :
        {x y z : State E S} {bad : Bool} → Reaches x y → Yields (advance y) z bad → Reaches x z

  -- The comparison that the database makes: `y` stands for `x`.
  abbrev pub Stands : State E S → State E S → Type 0
  Stands x y = (same x.expl y.expl ≡ true) × (hit x.symb y.symb ≡ true)

  -- A state that stands for another one yields what stands for its successors, errors included.
  abbrev pub Simulates : Type (ℓ ⊔ κ)
  Simulates =
      (x y z : State E S) (bad : Bool)
      → Stands x y
      → Yields (advance x) z bad
      → (w : State E S) × Yields (advance y) w bad × Stands z w

  yielded-Safe :
      (db : Database E S) (yields : List (State E S × Bool)) (x : State E S) (bad : Bool)
      → All (Safe same hit same_refl hit_refl advance db) yields
      → Yields yields x bad
      → Safe same hit same_refl hit_refl advance db (x, bad)
  yielded-Safe db [] x bad h y = elim y [ ]
  yielded-Safe db (p ∷ rest) x bad h here = h.0
  yielded-Safe db (p ∷ rest) x bad h (later y) = yielded-Safe db rest x bad h.1 y

  -- The final search covers what stands below a state that it covers.
  module _ (same_trans : (a b c : E) → same a b ≡ true → same b c ≡ true → same a c ≡ true)
      (hit_trans : (a b c : S) → hit a b ≡ true → hit b c ≡ true → hit a c ≡ true)
      (simulates : Simulates) where
    IsCovered-Stands :
        (db : Database E S) (z w : State E S)
        → Stands z w
        → IsCovered same hit same_refl hit_refl advance db w
        → IsCovered same hit same_refl hit_refl advance db z
    IsCovered-Stands db z w stands (id, v, named, eq_expl, eq_symb) = (
      id,
      v,
      named,
      same_trans z.expl w.expl v.expl stands.0 eq_expl,
      hit_trans z.symb w.symb v.symb stands.1 eq_symb,
    )

    -- In a search that ended with an empty queue and no error, a yielded state is safe if the state that
    -- it comes from is covered.
    advanced-Safe :
        (s : Search E S) (x z : State E S) (bad : Bool)
        → Invariant same hit same_refl hit_refl advance s
        → s.error_found ≡ false
        → s.to_do ≡ []
        → IsCovered same hit same_refl hit_refl advance s.knowns x
        → Yields (advance x) z bad
        → Safe same hit same_refl hit_refl advance s.knowns (z, bad)
    advanced-Safe s x z bad h quiet ended (id, v, named, equal, hits) yields =
        let (w, yields_w, stands) = simulates x v z bad (equal, hits) yields in
        let expanded =
          subst
            (λ queue.
              Queued id queue
              ⊎ ⊥
              ⊎ All (Safe same hit same_refl hit_refl advance s.knowns) (advance v))
            ended (h.expanded quiet id v named) in
        let (covered, fine) =
          yielded-Safe s.knowns (advance v) w bad (all_safe expanded) yields_w in
        (IsCovered-Stands s.knowns z w stands covered, fine)
      where
        all_safe : {A : Type (ℓ ⊔ κ)} → ⊥ ⊎ ⊥ ⊎ A → A
        all_safe (inl f) = absurd f
        all_safe (inr (inl f)) = absurd f
        all_safe (inr (inr a)) = a

    reached-IsCovered :
        (s : Search E S) (initial x : State E S)
        → Invariant same hit same_refl hit_refl advance s
        → s.error_found ≡ false
        → s.to_do ≡ []
        → IsCovered same hit same_refl hit_refl advance s.knowns initial
        → Reaches initial x
        → IsCovered same hit same_refl hit_refl advance s.knowns x
    reached-IsCovered s initial x h quiet ended c initially = c
    reached-IsCovered s initial x h quiet ended c (then_advance {y = y} {bad = bad} r yields) =
        (advanced-Safe s y x bad h quiet ended (reached-IsCovered s initial y h quiet ended c r)
          yields).0

    -- When the comparisons of the database are reflexive and transitive, and a state that stands for
    -- another one yields what stands for its successors, errors included: if the search ends without an
    -- error, so that it prints "Safe.", then no state that the program reaches from the initial one
    -- yields an error.
    pub run-safe :
        (n : ℕ) (initial x z : State E S) (bad : Bool) (s : Search E S)
        → run same hit advance n initial ≡ some (s, true)
        → s.error_found ≡ false
        → Reaches initial x
        → Yields (advance x) z bad
        → bad ≡ false
    run-safe n initial x z bad s ran quiet reaches yields =
        let (r, returned, facts) = run_outcome n initial in
        let same_result : r ≡ (s, true) = some_inj (sym returned ∙ ran) in
        let (h, covered, ends) = subst (RunOutcome initial) same_result facts in
        let ended = ends refl quiet in
        let reached = reached-IsCovered s initial x h quiet ended covered reaches in
        (advanced-Safe s x z bad h quiet ended reached yields).1
