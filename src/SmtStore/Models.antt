-- ===== src/SmtStore/Models.antt =====
-- What `push_definition` of src/llvmsym/smtdatastore.h adds to the meaning of a store.
use sym_divine.Base.{◌↔◌, ℕ, ◌+◌, ◌%◌, ◌<◌, ◌≡◌, Bool, some, All, Returns, get_elem?, >>=-eq-some}
use sym_divine.Formula.{Ident, Formula}
use sym_divine.Formula.Substitute.{Definition}
use sym_divine.Datastore
use sym_divine.Datastore.{Value}
use sym_divine.Smt.{Z3}
use sym_divine.Removal.{filter}
use sym_divine.Removal.Meaning.{Models, Defines}
use sym_divine.Removal.Laws.{remove_definitions-Models}
use sym_divine.Removal.Weight.{IsListing}
use sym_divine.Removal.Ends.{load, All-insert_sorted}
use sym_divine.Removal.Kept.{IsWell-IsRemovable}
use sym_divine.SmtStore.{Store, u16, cell, is_version, push_definition}
use sym_divine.SmtStore.Versions.{IsCurrent, IsStore}
use sym_divine.SmtStore.Definitions.{push_definition_runs}

-- `push_definition` for a variable of a well-formed store, whose generation is below its bound, runs to
-- its end with fuel for the weight of the formulas, and in each valuation: the old store holds and the
-- new version has the value of its defining formula if and only if the new store holds and so do the
-- definitions of the old version.
pub push_definition-Models :
    (z : Z3) (vpref : ℕ) (w : Ident → ℕ) (n : ℕ) (s : Store) (segment offset gen m bw : ℕ)
    (pointer : Bool) (def : Formula)
    → get_elem? s.segments_mapping segment ≡ some m
    → cell s.generations segment offset ≡ some gen
    → cell s.bit_widths segment offset ≡ some bw
    → gen + 1 < u16
    → IsListing def
    → load w s.path_condition s.definitions < n
    → IsStore w s
    → let new : Definition = record {
      symbol = record { seg = m; off = offset % u16; gen = gen + 1; bw = bw };
      def = def;
    } in
      Returns (push_definition n s (Datastore.variable segment offset pointer) def) λ t.
        (Models z vpref s.path_condition s.definitions × Defines z vpref new) ↔ (
          Models z vpref t.path_condition t.definitions
          × All (Defines z vpref) (filter (is_version m offset gen) s.definitions))
push_definition-Models z vpref w n s segment offset gen m bw pointer def mapped now width room
      listing enough h =
    let (row, in_table, in_row) = >>=-eq-some (get_elem? s.generations segment) _ now in
    let (r, runs, same) =
      remove_definitions-Models w n (is_version m offset gen) s.path_condition s.definitions
        (IsWell-IsRemovable w (IsCurrent s) n _ _ _ h.well enough) z vpref in
    let new : Definition = record {
      symbol = record { seg = m; off = offset % u16; gen = gen + 1; bw = bw };
      def = def;
    } in
    let (to, from) = same in
    let (split, join) = All-insert_sorted (Defines z vpref) new r.1 in
    (
      _,
      push_definition_runs s segment offset gen m bw row mapped in_table in_row n pointer def r.0
          r.1 width room listing runs,
      (
        (λ m. let (left, gone) = to m.0 in ((left.0, join (m.1, left.1)), gone)),
        (λ m. let (d, defs) = split m.0.1 in (from ((m.0.0, defs), m.1), d)),
      ),
    )
