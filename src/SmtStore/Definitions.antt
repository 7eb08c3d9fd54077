-- ===== src/SmtStore/Definitions.antt =====
-- `push_definition` of src/llvmsym/smtdatastore.h: the defined version of the variable is new, so that
-- the definitions never become circular and the removal of an old version always ends.
use sym_divine.Base.{
  ℕ, ◌+◌, ◌%◌, ◌<◌, ◌≡◌, refl, ap, sym, Bool, true, false, some, List, All, All-mono, Returns,
  Bool-cases, inl, inr, arith, get_elem?, set, >>=-eq-some,
}
use sym_divine.Formula.{Ident, ident_eq, Formula, collect_variables, sane, is_empty}
use sym_divine.Formula.Sane.{sane-postfix, postfix-ne}
use sym_divine.Formula.Substitute.{Definition}
use sym_divine.Formula.Substitute.Laws.{ident_eq-eq}
use sym_divine.Datastore
use sym_divine.Datastore.{Value}
use sym_divine.Removal.{insert_sorted, remove_definitions}
use sym_divine.Removal.Weight.{IsListing, weight}
use sym_divine.Removal.Ends.{load, All-insert_sorted}
use sym_divine.Removal.Kept.{Mentions, DefMentions, IsWell, remove_definitions-IsWell}
use sym_divine.SmtStore.{Store, u16, cell, version, is_version, remove, advance, push_definition}
use sym_divine.SmtStore.Versions.{
  IsCurrent, IsInjective, IsStore, ranked_by, ident_eq_self, ranked_by_other, ranked_by_others,
  cell-set,
}

module _ (s : Store) (segment offset gen m bw : ℕ) (row : List ℕ)
    (mapped : get_elem? s.segments_mapping segment ≡ some m)
    (in_table : get_elem? s.generations segment ≡ some row)
    (now : get_elem? row offset ≡ some gen) where
  abbrev next_version : Ident
  next_version = record { seg = m; off = offset % u16; gen = gen + 1; bw = bw }

  -- The store with the next generation.
  abbrev next_store : List Formula → List Definition → Store
  next_store pcs defs = record s {
    path_condition = pcs;
    definitions = defs;
    generations = set s.generations segment (set row offset (gen + 1));
  }

  cell_now : cell s.generations segment offset ≡ some gen
  cell_now = rw in_table now

  next_version_fresh : (id : Ident) → IsCurrent s id → ident_eq id next_version ≡ false
  next_version_fresh id h = elim (Bool-cases (ident_eq id next_version)) [
    | inr miss ↦ miss
    | inl hit ↦
        let same = ident_eq-eq id next_version hit in
        let seg : id.seg ≡ m = ap Ident.seg same in
        let off : id.off ≡ offset % u16 = ap Ident.off same in
        let newer : id.gen ≡ gen + 1 = ap Ident.gen same in
        let older = h segment offset gen (rw seg mapped) cell_now (sym off) in absurd (omega arith)
  ]

  IsCurrent-next_store :
      (pcs : List Formula) (defs : List Definition) (id : Ident)
      → IsCurrent s id
      → IsCurrent (next_store pcs defs) id
  IsCurrent-next_store pcs defs id h k l g e c o =
      elim (cell-set s.generations row segment offset (gen + 1) k l g in_table c) [
        | inl (same, same', new) ↦
            let older = h segment offset gen (rw same at e) cell_now (rw same' at o) in omega arith
        | inr (old, other) ↦ h k l g e old o
      ]

  next_version-IsCurrent :
      (pcs : List Formula) (defs : List Definition)
      → IsInjective s
      → IsCurrent (next_store pcs defs) next_version
  next_version-IsCurrent pcs defs inj k l g e c o =
      elim (cell-set s.generations row segment offset (gen + 1) k l g in_table c) [
        | inl (same, same', new) ↦ omega arith
        | inr (old, other) ↦
            let (same, same') = inj k l segment offset m g gen e mapped old cell_now o in
            absurd (other same same')
      ]

  was_cell :
      (k l g : ℕ)
      → cell (set s.generations segment (set row offset (gen + 1))) k l ≡ some g
      → (old : ℕ) × (cell s.generations k l ≡ some old)
  was_cell k l g c = elim (cell-set s.generations row segment offset (gen + 1) k l g in_table c) [
    | inl (same, same', new) ↦ (gen, rw (same, same') cell_now)
    | inr (old, other) ↦ (g, old)
  ]

  next_store-IsInjective :
      (pcs : List Formula) (defs : List Definition)
      → IsInjective s
      → IsInjective (next_store pcs defs)
  next_store-IsInjective pcs defs inj i j k l x g g' e e' c c' o =
      let (old, was) = was_cell i j g c in
      let (old', was') = was_cell k l g' c' in inj i j k l x old old' e e' was was' o

  -- The store with a definition of the new version.
  insert_sorted-IsStore :
      (w : Ident → ℕ) (pcs : List Formula) (defs : List Definition) (def : Formula)
      → IsInjective s
      → IsWell w (IsCurrent s) pcs defs
      → IsListing def
      → Mentions (IsCurrent s) def
      → IsStore
          (ranked_by w next_version (weight w def))
          (next_store pcs (insert_sorted (record { symbol = next_version; def = def }) defs))
  insert_sorted-IsStore w pcs defs def inj h listing known =
      let new : Definition = record { symbol = next_version; def = def } in
      let fresh = All-mono next_version_fresh in
      let grown = All-mono (IsCurrent-next_store pcs (insert_sorted new defs)) in
      let others : All (DefMentions (λ id. ident_eq id next_version ≡ false)) defs =
        All-mono (λ d mentioned. (next_version_fresh d.symbol mentioned.0, fresh _ mentioned.1))
          defs h.definitions_mention in
      let lighter : weight (ranked_by w next_version (weight w def)) def
          < ranked_by w next_version (weight w def) next_version =
        (let same = ranked_by_other w next_version (weight w def) def (fresh _ known) in
          rw (ident_eq_self next_version) (omega arith)) in
      record {
        well = record {
          conditions_listed = h.conditions_listed;
          definitions_listed = (All-insert_sorted _ new defs).1 (listing, h.definitions_listed);
          ranked =
              (All-insert_sorted _ new defs).1
                (lighter, ranked_by_others w next_version _ defs others h.ranked);
          conditions_mention = All-mono (λ f. grown (collect_variables f)) pcs h.conditions_mention;
          definitions_mention = (All-insert_sorted _ new defs).1 (
            (next_version-IsCurrent pcs (insert_sorted new defs) inj, grown _ known),
            All-mono
                (λ d m.
                  (IsCurrent-next_store pcs (insert_sorted new defs) d.symbol m.0, grown _ m.1))
                defs h.definitions_mention,
          );
        };
        injective = next_store-IsInjective pcs (insert_sorted new defs) inj;
      }

  pub push_definition_runs :
      (n : ℕ) (pointer : Bool) (def : Formula) (pcs : List Formula) (defs : List Definition)
      → cell s.bit_widths segment offset ≡ some bw
      → gen + 1 < u16
      → IsListing def
      → remove_definitions n (is_version m offset gen) s.path_condition s.definitions
        ≡ some (pcs, defs)
      → push_definition n s (Datastore.variable segment offset pointer) def
        ≡ some (next_store pcs (insert_sorted (record { symbol = next_version; def = def }) defs))
  unfolding push_definition advance remove version
  push_definition_runs n pointer def pcs defs width room listing runs =
      let fine : sane def ≡ true = rw listing.1 (sane-postfix listing.0) in
      let ne : is_empty def ≡ false = rw listing.1 (postfix-ne listing.0) in
      let next : (gen + 1) % u16 ≡ gen + 1 = omega arith in
      rw (fine, ne, in_table, now, mapped, runs, next, mapped, width) refl

-- `push_definition` for a variable of a well-formed store, whose generation is below its bound: it runs
-- to its end with fuel for the weight of the formulas, and the new store is well formed again, its
-- definitions ranked with the new one on top, when the defining formula lists a term and mentions no
-- version of a variable newer than its generation.
pub push_definition-IsStore :
    (w : Ident → ℕ) (n : ℕ) (s : Store) (segment offset gen m bw : ℕ) (pointer : Bool)
    (def : Formula)
    → get_elem? s.segments_mapping segment ≡ some m
    → cell s.generations segment offset ≡ some gen
    → cell s.bit_widths segment offset ≡ some bw
    → gen + 1 < u16
    → IsListing def
    → Mentions (IsCurrent s) def
    → load w s.path_condition s.definitions < n
    → IsStore w s
    → Returns (push_definition n s (Datastore.variable segment offset pointer) def) λ t.
      IsStore
        (ranked_by w
          (record { seg = m; off = offset % u16; gen = gen + 1; bw = bw })
          (weight w def))
        t
push_definition-IsStore w n s segment offset gen m bw pointer def mapped now width room listing
      known enough h =
    let (row, in_table, in_row) = >>=-eq-some (get_elem? s.generations segment) _ now in
    let (r, runs, well) =
      remove_definitions-IsWell w (IsCurrent s) n (is_version m offset gen) s.path_condition
        s.definitions h.well enough in
    (
      _,
      push_definition_runs s segment offset gen m bw row mapped in_table in_row n pointer def r.0
          r.1 width room listing runs,
      insert_sorted-IsStore s segment offset gen m bw row mapped in_table in_row w r.0 r.1 def
          h.injective well listing known,
    )
