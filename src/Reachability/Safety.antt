-- ===== src/Reachability/Safety.antt =====
-- The loop of the search keeps the invariant.
use sym_divine.Base.{
  ℕ, zero, suc, ◌≡◌, ◌≢◌, refl, sym, ◌∙◌, ◌⊎◌, inl, inr, Bool, true, false, Option, some, List, [],
  ◌∷◌, Returns, All, some_inj, subst,
}
use sym_divine.Database.{Database, State, StateId, id_eq, get_state}
use sym_divine.Database.Tables.{id_eq_iff}
use sym_divine.Graph.{Vertex, add_successors}
use sym_divine.Reachability.{Search, expand, turn, loop}
use sym_divine.Reachability.Invariant.{
  Queued, Names, IsSafe, IsSearch, Keeps, Progress, yield_all-Progress,
}

true-false : true ≢ false
true-false h = cc

-- No vertex is being expanded.
abbrev pub Nothing : StateId → Type 0
Nothing id = ⊥

add_successors_runs :
    (g : List (StateId × Vertex StateId (Unit {0}) (Unit {0}))) (vertex : StateId)
    (succ : List StateId)
    → Returns (add_successors id_eq tt tt g vertex succ [] []) λ r. Unit {0}
unfolding add_successors
add_successors_runs g vertex succ = (_, refl, tt)

module _ {ℓ κ} {E : Type ℓ} {S : Type κ} (same : E → E → Bool) (hit : S → S → Bool)
    (same_refl : (e : E) → same e e ≡ true) (hit_refl : (x : S) → hit x x ≡ true)
    (advance : State E S → List (State E S × Bool)) where
  abbrev pub Invariant : Search E S → Type (ℓ ⊔ κ)
  Invariant s = IsSearch same hit same_refl hit_refl advance s Nothing

  abbrev Expanding : StateId → Search E S → Type (ℓ ⊔ κ)
  Expanding vertex s = IsSearch same hit same_refl hit_refl advance s λ j. id_eq j vertex ≡ true

  abbrev pub Safe : Database E S → State E S × Bool → Type (ℓ ⊔ κ)
  Safe = IsSafe same hit same_refl hit_refl advance

  -- The first vertex of the queue is the one being expanded.
  taken-case :
      (db : Database E S) (vertex j : StateId) (to_do : List StateId) (y : State E S)
      → Queued j (vertex ∷ to_do) ⊎ ⊥ ⊎ All (Safe db) (advance y)
      → Queued j to_do ⊎ (id_eq j vertex ≡ true) ⊎ All (Safe db) (advance y)
  taken-case db vertex j to_do y (inl (inl e)) = inr (inl e)
  taken-case db vertex j to_do y (inl (inr q)) = inl q
  taken-case db vertex j to_do y (inr (inl f)) = absurd f
  taken-case db vertex j to_do y (inr (inr safe)) = inr (inr safe)

  taken-IsSearch :
      (s : Search E S) (vertex : StateId) (to_do : List StateId)
      → s.to_do ≡ vertex ∷ to_do
      → Invariant s
      → Expanding vertex (record s { to_do = to_do })
  taken-IsSearch s vertex to_do e h = record {
    indexed = h.indexed;
    queued = (subst (All (Names same hit same_refl hit_refl advance s.knowns)) e h.queued).1;
    expanded = λ quiet j y named. taken-case s.knowns vertex j to_do y (
        subst (λ queue. Queued j queue ⊎ ⊥ ⊎ All (Safe s.knowns) (advance y)) e
          (h.expanded quiet j y named));
  }

  expanded-case :
      (db : Database E S) (vertex j : StateId) (to_do : List StateId) (b y : State E S)
      → get_state same hit db vertex ≡ some b
      → get_state same hit db j ≡ some y
      → All (Safe db) (advance b)
      → Queued j to_do ⊎ (id_eq j vertex ≡ true) ⊎ All (Safe db) (advance y)
      → Queued j to_do ⊎ ⊥ ⊎ All (Safe db) (advance y)
  expanded-case db vertex j to_do b y named e safe (inl q) = inl q
  expanded-case db vertex j to_do b y named e safe (inr (inl t)) =
      let here = subst (λ i. get_state same hit db i ≡ some y) (id_eq_iff j vertex t) e in
      let same_state : b ≡ y = some_inj (sym named ∙ here) in
      inr (inr (subst (λ z. All (Safe db) (advance z)) same_state safe))
  expanded-case db vertex j to_do b y named e safe (inr (inr fine)) = inr (inr fine)

  -- The invariant after the successors of the vertex were all put in.
  expanded-IsSearch :
      (s t : Search E S) (vertex : StateId) (b : State E S)
      (g : List (StateId × Vertex StateId (Unit {0}) (Unit {0})))
      → get_state same hit s.knowns vertex ≡ some b
      → Progress same hit same_refl hit_refl advance (λ j. id_eq j vertex ≡ true) s (advance b) t
      → Invariant (record t { graph = g })
  expanded-IsSearch s t vertex b g named (h, keeps, safe) = record {
    indexed = h.indexed;
    queued = h.queued;
    expanded = λ quiet j y e.
        expanded-case t.knowns vertex j t.to_do b y (keeps vertex b named) e (safe quiet).1
          (h.expanded quiet j y e);
  }

  -- One turn of the loop runs to its end and keeps the invariant and every named state.
  expand-IsSearch :
      (s : Search E S) (vertex : StateId) (to_do : List StateId)
      → s.to_do ≡ vertex ∷ to_do
      → Invariant s
      → Returns
          (expand same hit advance (record s { to_do = to_do }) vertex)
          λ t. Invariant t × Keeps same hit same_refl hit_refl advance s.knowns t.knowns
  unfolding expand
  expand-IsSearch s vertex to_do e h =
      let (b, named) =
        (subst (All (Names same hit same_refl hit_refl advance s.knowns)) e h.queued).0 in
      let now : Search E S = record s { to_do = to_do } in
      let (r, ran, progress) =
        yield_all-Progress same hit same_refl hit_refl advance (λ j. id_eq j vertex ≡ true)
          (advance b) now (taken-IsSearch s vertex to_do e h) in
      let (added, grown, u) = add_successors_runs r.0.graph vertex r.1 in
      (
        record r.0 { graph = added.0 },
        rw (named, ran, grown),
        (expanded-IsSearch now r.0 vertex b added.0 named progress, progress.1),
      )

  -- The answer of the loop: within its fuel it came to an end with an empty queue or an error.
  abbrev pub Ends : Search E S × Bool → Type 0
  Ends (s, finished) = finished ≡ true → s.error_found ≡ false → s.to_do ≡ []

  abbrev pub Outcome : Search E S → Search E S × Bool → Type (ℓ ⊔ κ)
  Outcome s r =
      Invariant r.0 × Keeps same hit same_refl hit_refl advance s.knowns r.0.knowns × Ends r

  turn-IsSearch :
      (rest : Search E S → Option (Search E S × Bool)) (s : Search E S) (found : Bool)
      (to_do : List StateId)
      → ((t : Search E S) → Invariant t → Returns (rest t) (Outcome t))
      → s.error_found ≡ found
      → s.to_do ≡ to_do
      → Invariant s
      → Returns (turn same hit advance rest s found to_do) (Outcome s)
  unfolding turn
  turn-IsSearch rest s true to_do runs f q h =
      ((s, true), refl, (h, (λ j y e. e), λ fin quiet. absurd (true-false (sym f ∙ quiet))))
  turn-IsSearch rest s false [] runs f q h = ((s, true), refl, (h, (λ j y e. e), λ fin quiet. q))
  turn-IsSearch rest s false (vertex ∷ to_do) runs f q h =
      let (t, turned, kept) = expand-IsSearch s vertex to_do q h in
      let (r, ran, outcome) = runs t kept.0 in
      (r, rw (turned, ran), (outcome.0, (λ j y e. outcome.1 j y (kept.1 j y e)), outcome.2))

  -- The loop never faults, whatever its fuel, and keeps the invariant and every named state.
  pub loop-IsSearch :
      (n : ℕ) (s : Search E S) → Invariant s → Returns (loop same hit advance n s) (Outcome s)
  unfolding loop
  loop-IsSearch zero s h =
      ((s, false), refl, (h, (λ j y e. e), λ fin. absurd (true-false (sym fin))))
  loop-IsSearch (suc n) s h =
      turn-IsSearch (λ t. loop same hit advance n t) s s.error_found s.to_do
        (λ t kept. loop-IsSearch n t kept) refl refl h
