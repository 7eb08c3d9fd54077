-- ===== src/Evaluator/Successors.antt =====
-- The searches of the threads in `advance` of src/llvmsym/evaluator.h: what they yield are the successors of
-- the states that they start from.
use sym_divine.Base.{
  ℕ, zero, suc, ◌≡◌, refl, sym, ◌∙◌, ap, Bool, true, false, ◌&&◌, inl, inr, ◌↔◌, ◌⊎◌, Option, some,
  List, [], ◌∷◌, Whenever, each, stop, >>=-eq-some, some_inj, All, subst,
}
use mathlib.Core.List.Memᴰ
use mathlib.Core.List.{Memᴰ}
use sym_divine.Control
use sym_divine.Stores.{DataStore}
use sym_divine.Evaluator.{Program, State}
use sym_divine.Evaluator.Values.{Yield}
use sym_divine.Evaluator.Dispatch.{step}
use sym_divine.Evaluator.Search
use sym_divine.Evaluator.Search.{Found, Progress}
use sym_divine.Evaluator.Collected.{is_shown, goes_on, Gathers, collect-Gathers, collect-All}

module _ {ℓ} {D : Type ℓ} (smt : DataStore D) (program : Program) (tid : ℕ) where
  -- The observable successors of a state: after steps of the thread that are not observable, one that is, or
  -- that ends in an error.
  pub data Sees : State D → State D → Type ℓ where
    now :
        {s u : State D} {ys : List (Yield D)} {left : State D}
        → step smt program s tid s.error ≡ some (ys, left)
        → (y : Yield D) → Memᴰ y ys
        → is_shown y ≡ true
        → y.state ≡ u
        → Sees s u
    later :
        {s u : State D} {ys : List (Yield D)} {left : State D}
        → step smt program s tid s.error ≡ some (ys, left)
        → (y : Yield D) → Memᴰ y ys
        → goes_on y ≡ true
        → Sees y.state u
        → Sees s u

  -- The search so far: what is yielded meets `Q`, and so do the successors of what is to be done.
  abbrev Sound : (State D → Type ℓ) → State D → Type ℓ
  Sound Q t = (u : State D) → Sees t u → Q u

  round-Sound :
      (Q : State D → Type ℓ) (snapshot : State D) (to_do yielded : List (State D))
      → All Q yielded
      → All (Sound Q) (snapshot ∷ to_do)
      → Whenever
          (Search.round smt program tid snapshot to_do yielded)
          λ p. All Q p.found.yielded × All (Sound Q) p.found.to_do
  unfolding Search.round
  round-Sound Q snapshot to_do yielded hy ht =
      each (step smt program snapshot tid snapshot.error) _ λ o e.
        each (Search.collect false o.0 (record { yielded = yielded; to_do = to_do })) _ λ found e1.
          stop (λ p. All Q p.found.yielded × All (Sound Q) p.found.to_do) _
            (collect-All Q (Sound Q) false o.0 _ hy ht.1 (λ y m h. ht.0 y.state (now e y m h refl))
              (λ y m h u sees. ht.0 u (later e y m h sees)) found e1)

  turn-Sound :
      (rest : Progress D → Option (Progress D × Bool)) (Q : State D → Type ℓ) (p : Progress D)
      (to_do : List (State D))
      → ((q : Progress D)
          → All Q q.found.yielded
          → All (Sound Q) q.found.to_do
          → Whenever (rest q) λ r. All Q r.0.found.yielded)
      → All Q p.found.yielded
      → All (Sound Q) to_do
      → Whenever (Search.turn smt program rest tid p to_do) λ r. All Q r.0.found.yielded
  unfolding Search.turn
  turn-Sound rest Q p [] h hy ht = stop (λ r. All Q r.0.found.yielded) _ hy
  turn-Sound rest Q p (top ∷ to_do) h hy ht =
      each (Search.round smt program tid top to_do p.found.yielded) _ λ next e.
        let (ny, nt) = round-Sound Q top to_do p.found.yielded hy ht next e in h next ny nt

  loop-Sound :
      (n : ℕ) (Q : State D → Type ℓ) (p : Progress D)
      → All Q p.found.yielded
      → All (Sound Q) p.found.to_do
      → Whenever (Search.loop smt program n tid p) λ r. All Q r.0.found.yielded
  unfolding Search.loop
  loop-Sound zero Q p hy ht = stop (λ r. All Q r.0.found.yielded) _ hy
  loop-Sound (suc n) Q p hy ht =
      turn-Sound (λ q. Search.loop smt program n tid q) Q p p.found.to_do (loop-Sound n Q) hy ht

  -- The states in `f` stay in what the search yields, and so do the successors of those on its stack.
  record Covers (f g : Found D) : Type ℓ where
    kept : (u : State D) → Memᴰ u f.yielded → Memᴰ u g.yielded
    seen : (t u : State D) → Memᴰ t f.to_do → Sees t u → Memᴰ u g.yielded

  top-seen :
      (snapshot : State D) (g : Found D) (o : List (Yield D) × State D)
      → step smt program snapshot tid snapshot.error ≡ some o
      → (before found : Found D) → Gathers o.0 before found
      → Covers found g
      → (u : State D) → Sees snapshot u
      → Memᴰ u g.yielded
  top-seen snapshot g o e before found gathers c u (now e' y m h same) =
      let m' : Memᴰ y o.0 = subst (λ r. Memᴰ y r.0) (some_inj (sym e' ∙ e)) m in
      subst (λ v. Memᴰ v g.yielded) same (c.kept y.state (gathers.shown y m' h))
  top-seen snapshot g o e before found gathers c u (later e' y m h sees) =
      let m' : Memᴰ y o.0 = subst (λ r. Memᴰ y r.0) (some_inj (sym e' ∙ e)) m in
      c.seen y.state u (gathers.to_go_on y m' h) sees

  -- A search that goes on after the step of the state on top covers its successors too.
  round-Covers :
      (snapshot : State D) (to_do yielded : List (State D)) (g : Found D)
      → Whenever
          (Search.round smt program tid snapshot to_do yielded)
          λ p. Covers p.found g → Covers (record { yielded = yielded; to_do = snapshot ∷ to_do }) g
  unfolding Search.round
  round-Covers snapshot to_do yielded g =
      each (step smt program snapshot tid snapshot.error) _ λ o e.
        each (Search.collect false o.0 (record { yielded = yielded; to_do = to_do })) _ λ found e1.
          let gathers =
            collect-Gathers false o.0 (record { yielded = yielded; to_do = to_do }) found e1 in
          stop
            (λ p.
              Covers p.found g → Covers (record { yielded = yielded; to_do = snapshot ∷ to_do }) g)
            _
            (λ c. record {
              kept = λ u m. c.kept u (gathers.old_yielded u m);
              seen = λ t u m sees. elim (Memᴰ.cases_cons m) [
                | inl same ↦
                    top-seen snapshot g o e _ found gathers c u (subst (λ t. Sees t u) same sees)
                | inr m' ↦ c.seen t u (gathers.old_to_do t m') sees
              ];
            })

  -- If the search comes to its end.
  abbrev Ends : List (State D) → List (State D) → Progress D × Bool → Type ℓ
  Ends yielded to_do r = r.1 ≡ true → Covers (record { yielded = yielded; to_do = to_do }) r.0.found

  turn-Ends :
      (rest : Progress D → Option (Progress D × Bool)) (p : Progress D) (to_do : List (State D))
      → ((q : Progress D) → Whenever (rest q) (Ends q.found.yielded q.found.to_do))
      → Whenever (Search.turn smt program rest tid p to_do) (Ends p.found.yielded to_do)
  unfolding Search.turn
  turn-Ends rest p [] h =
      stop (Ends p.found.yielded []) _
        (λ ended. record { kept = λ u m. m; seen = λ t u m. absurd (Memᴰ.not-nil m) })
  turn-Ends rest p (top ∷ to_do) h =
      each (Search.round smt program tid top to_do p.found.yielded) _ λ next e r e1 ended.
        round-Covers top to_do p.found.yielded r.0.found next e (h next r e1 ended)

  loop-Ends :
      (n : ℕ) (p : Progress D)
      → Whenever (Search.loop smt program n tid p) (Ends p.found.yielded p.found.to_do)
  unfolding Search.loop
  loop-Ends zero p = stop (Ends p.found.yielded p.found.to_do) _ (λ ended. cc)
  loop-Ends (suc n) p =
      turn-Ends (λ q. Search.loop smt program n tid q) p p.found.to_do (loop-Ends n)

All-Mem {ℓ κ} : {A : Type ℓ} (P : A → Type κ) (xs : List A) (x : A) → All P xs → Memᴰ x xs → P x
All-Mem P [] x h m = absurd (Memᴰ.not-nil m)
All-Mem P (y ∷ xs) x h m = elim (Memᴰ.cases_cons m) [
  | inl same ↦ subst P (sym same) h.0
  | inr m' ↦ All-Mem P xs x h.1 m'
]

Mem-All {ℓ κ} : {A : Type ℓ} (P : A → Type κ) (xs : List A) → ((x : A) → Memᴰ x xs → P x) → All P xs
Mem-All P [] h = tt
Mem-All P (y ∷ xs) h = (h y (Memᴰ.head refl), Mem-All P xs (λ x m. h x (Memᴰ.tail m)))

&&-both : (a b : Bool) → (a && b) ≡ true → (a ≡ true) × (b ≡ true)
&&-both true b h = (refl, h)
&&-both false b h = cc

module _ {ℓ} {D : Type ℓ} (smt : DataStore D) (program : Program) (n : ℕ) where
  abbrev begun : List (State D) → State D → Progress D
  begun yielded s = record { state = s; found = record { yielded = yielded; to_do = s ∷ [] } }

  -- The observable successors that the threads of the list find in turn: those of the state for the first
  -- thread, and for every further one those of the state that the search before it has left.
  pub data SeesInTurn : List (State D) → List ℕ → State D → State D → Type ℓ where
    first :
        {yielded : List (State D)} {tid : ℕ} {tids : List ℕ} {s u : State D}
        → Sees smt program tid s u
        → SeesInTurn yielded (tid ∷ tids) s u
    further :
        {yielded : List (State D)} {tid : ℕ} {tids : List ℕ} {s u : State D} (p : Progress D)
        → Search.loop smt program n tid (begun yielded s) ≡ some (p, true)
        → SeesInTurn p.found.yielded tids p.state u
        → SeesInTurn yielded (tid ∷ tids) s u

  -- The search of one thread adds the observable successors of its state.
  loop-Sees :
      (tid : ℕ) (s u : State D) (yielded : List (State D)) (p : Progress D)
      → Search.loop smt program n tid (begun yielded s) ≡ some (p, true)
      → Memᴰ u p.found.yielded ↔ (Memᴰ u yielded ⊎ Sees smt program tid s u)
  loop-Sees tid s u yielded p ran =
      let Q : State D → Type ℓ = λ v. Memᴰ v yielded ⊎ Sees smt program tid s v in
      let sound : All Q p.found.yielded =
        loop-Sound smt program tid n Q (begun yielded s) (Mem-All Q yielded (λ v m. inl m))
          ((λ v sees. inr sees), tt) (p, true) ran in
      let covers = loop-Ends smt program tid n (begun yielded s) (p, true) ran refl in
      (
        (λ m. All-Mem Q p.found.yielded u sound m),
        (λ x. elim x [
          | inl m ↦ covers.kept u m
          | inr sees ↦ covers.seen s u (Memᴰ.head refl) sees
        ]),
      )

  advance_threads-Sees :
      (tids : List ℕ) (s u : State D) (yielded found : List (State D))
      → Search.advance_threads smt program n tids s yielded ≡ some (found, true)
      → Memᴰ u found ↔ (Memᴰ u yielded ⊎ SeesInTurn yielded tids s u)
  unfolding Search.advance_threads
  advance_threads-Sees [] s u yielded found e =
      let same : yielded ≡ found = ap (λ (r : List (State D) × Bool). r.0) (some_inj e) in
      (
        (λ m. inl (subst (Memᴰ u) (sym same) m)),
        (λ x. elim x [ inl m ↦ subst (Memᴰ u) same m | inr sees ↦ no_thread sees ]),
      )
    where
      no_thread : SeesInTurn yielded [] s u → Memᴰ u found
      no_thread sees = elim sees [ ]
  advance_threads-Sees (tid ∷ tids) s u yielded found e =
      let ((p, ended), ran, e₁) =
        >>=-eq-some (Search.loop smt program n tid (begun yielded s)) _ e in
      let ((all, all_ended), rest, done) =
        >>=-eq-some (Search.advance_threads smt program n tids p.state p.found.yielded) _ e₁ in
      let (b, b') =
        &&-both ended all_ended (ap (λ (r : List (State D) × Bool). r.1) (some_inj done)) in
      let same : all ≡ found = ap (λ (r : List (State D) × Bool). r.0) (some_inj done) in
      let ran' : Search.loop smt program n tid (begun yielded s) ≡ some (p, true) =
        ran ∙ ap (λ c. some (p, c)) b in
      let rest' : Search.advance_threads smt program n tids p.state p.found.yielded
          ≡ some (found, true) =
        rest ∙ ap (λ c. some (all, c)) b' ∙ ap (λ (f : List (State D)). some (f, true)) same in
      let (one, one_back) = loop-Sees tid s u yielded p ran' in
      let (more, more_back) = advance_threads-Sees tids p.state u p.found.yielded found rest' in
      (
        (λ m. elim (more m) [
          | inr sees ↦ inr (further p ran' sees)
          | inl m' ↦ elim (one m') [ inl old ↦ inl old | inr sees ↦ inr (first sees) ]
        ]),
        (λ x. elim x [
          | inl old ↦ more_back (inl (one_back (inl old)))
          | inr sees ↦ by_thread p ran' one_back more_back sees
        ]),
      )
    where
      by_thread :
          (p : Progress D)
          → Search.loop smt program n tid (begun yielded s) ≡ some (p, true)
          → ((Memᴰ u yielded ⊎ Sees smt program tid s u) → Memᴰ u p.found.yielded)
          → ((Memᴰ u p.found.yielded ⊎ SeesInTurn p.found.yielded tids p.state u) → Memᴰ u found)
          → SeesInTurn yielded (tid ∷ tids) s u
          → Memᴰ u found
      by_thread p ran' one_back more_back (first sees) = more_back (inl (one_back (inr sees)))
      by_thread p ran' one_back more_back (further q ran'' sees) =
          let same : q ≡ p = ap (λ (r : Progress D × Bool). r.0) (some_inj (sym ran'' ∙ ran')) in
          more_back (inr (subst (λ r. SeesInTurn r.found.yielded tids r.state u) same sees))

  -- When `advance` comes to its end, it yields exactly what the threads that may run find in turn: the
  -- observable successors of the state for the first one, and for every further one the observable
  -- successors of the state that the search of the thread before it has left.
  pub advance-Sees :
      (s u : State D) (found : List (State D))
      → Search.advance smt program n s ≡ some (found, true)
      → Memᴰ u found ↔ SeesInTurn [] (Control.get_allowed_threads s.control) s u
  unfolding Search.advance
  advance-Sees s u found e =
      let (to, from) =
        advance_threads-Sees (Control.get_allowed_threads s.control) s u [] found e in
      (
        (λ m. elim (to m) [ inl old ↦ absurd (Memᴰ.not-nil old) | inr sees ↦ sees ]),
        (λ sees. from (inr sees)),
      )
