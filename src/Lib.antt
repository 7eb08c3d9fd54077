-- ===== src/Lib.antt =====
-- SymDIVINE explores the states of a multi-threaded LLVM program. A state has a control part (threads,
-- call stacks, atomic sections), a layout of memory segments, an explicit store for the variables that
-- hold one number, and a symbolic store: a path condition and definitions, given to Z3. The search puts
-- each state into a database, whose explicit parts are compared by bytes and whose symbolic parts by
-- inclusion, and keeps the explored graph. For an LTL property it searches the product with a Buechi
-- automaton for a cycle through an accepting state.
--
-- The parts and their files:
--   Control       src/llvmsym/thread.h. A method of `Control` is a function on the record `Control` with
--                 the same name in snake case; Control.Steps has the methods as a step relation.
--   Formula       src/llvmsym/formula/rpn.h. A formula is the list of items of the source, in postfix
--                 order; Formula.Term has the trees that such lists stand for, Formula.Substitute
--                 `Formula::substitute` with its positions and copies.
--   Smt           src/llvmsym/formula/z3.cpp, the translation `toz3` over Z3 as a record of operations.
--   Layout        src/llvmsym/memorylayout.h and memorylayout.cpp: the segments of threads and frames
--                 and the flags of variables.
--   Datastore     src/llvmsym/datastore.h and datastore.cpp; Datastore.Words has the C++ integers.
--   ExplicitStore src/llvmsym/explicitstore.h, with its methods as a step relation in
--                 ExplicitStore.Methods and its pointers in ExplicitStore.Pointers.
--   BaseSmtStore  src/llvmsym/base_smt_datastore.h: the instructions on symbolic values, over the methods
--                 of a store as a record.
--   SmtStore      src/llvmsym/smtdatastore.h, the symbolic store, which fills that record; its queries,
--                 from smtdatastore.cpp, are in SmtStore.Queries over the solver as a record of calls.
--   Removal       `removeDefinitions` of src/llvmsym/smtdatastore.h, on the path conditions and the
--                 definitions. Its loop has fuel.
--   Toolkit       src/toolkit/utils.h (IdContainer, UnionSet and the merges of ranges) and
--                 src/toolkit/query_cache.h.
--   LlvmTypes     src/llvmsym/llvmdata.h and llvmdata.cpp: the widths of types.
--   Stores        the methods of src/llvmsym/datastore.h as a record, which both stores fill;
--                 Stores.Laws has what they do to the number of segments.
--   Evaluator     src/llvmsym/evaluator.h: its state over Control, Layout and both stores. Frames has the
--                 functions that begin and end frames and threads, Values and Memory the handlers that
--                 write values, Names and Calls `do_call`, Branches the jumps and returns, Dispatch
--                 src/llvmsym/instructiondispatch.h and the step of a thread, Search `advance`. The values
--                 of src/llvmsym/memorylayout.h (`Frame`, `deref`, `switchBB`) are in Evaluator too. Its other
--                 files are about the yields of `advance` and about the sizes of the tables of a state.
--   Groups        `dependency_group` of src/llvmsym/smtdatastore_partial.h.
--   PartialStore  src/llvmsym/smtdatastore_partial.h, the symbolic store in groups of variables that
--                 depend on each other; its fuel is that of `removeDefinitions`.
--   Ltl           src/llvmsym/ltl.tpp, the inner search for cycles, and in Ltl.Nested the search around it.
--                 The evaluator is a parameter here, the Buechi automaton a graph; the outer loop has fuel.
--   Database      src/llvmsym/blobing.h, `Database` over `LinearCandidate`. The two comparisons are
--                 parameters, as the template's arguments are in the source.
--   Graph         src/toolkit/graph.h.
--   Reachability  src/llvmsym/reachability.tpp over Database and Graph, with the evaluator as a
--                 parameter: a function from a state to the states that it yields.
--   Base          lists as vectors, Boolean tests, and `Option` for code that may fail.
--
-- Conventions. A value of type `Option` is `none` where the source fails an `assert`, aborts,
-- throws, reads out of bounds or does what C++ leaves undefined. Numbers are natural numbers; a
-- machine integer has its wrap-around written out (`% u16`, `% u64`), and a signed integer is the
-- type ℤ of Datastore.Words. Loops are structural recursion on the list that they go over, except
-- the loops of the two searches and of `advance`, which have fuel and tell whether they came to their end,
-- since the state space may be infinite and so may a path of steps that are not observable, the search for one cycle, which has the fuel that its weight asks for,
-- the loop of `removeDefinitions`, which does not end when definitions are circular (fuel above the weight of the formulas is enough when they are not), and the walk to the
-- root of a set. Hash tables are association lists, since their hashes only choose buckets.
-- The number of segments is bounded by 2^32, the width of a pointer's half.
--
-- Not modelled: the bytes of states and their serialisation (src/llvmsym/blobutils.h, `Blob`), the
-- queries of the partial store (src/llvmsym/smtdatastore_partial.cpp) and the second store that it keeps
-- under --testvalidity, the knowledge base (src/llvmsym/emptydatastore.h), the automata of src/toolkit/ltl2ba.h, and the numbering of
-- src/llvmsym/graph.h. Of the evaluator: `initial` with the globals, `read` and `write`, the constructor that
-- reads the module, and `collectUsedValues`, whose result is a field of a function. Of the modelled files: the printers of formulas,
-- `findIsomorphicVariableMapping`, `fromz3` and the two simplifications by Z3, the use of the query
-- cache in `subseteq`, the containers of blobing.h other than
-- `LinearCandidate`, and the clocks, streams and hashes of utils.h. Z3, q3b, LLVM, the demangler and the SpookyHash
-- copy of src/toolkit/jenkins.h are outside code.
mod Base
pub mod Control
pub mod Formula
pub mod Smt
pub mod Layout
pub mod Datastore
pub mod LlvmTypes
pub mod ExplicitStore
pub mod Removal
pub mod BaseSmtStore
pub mod SmtStore
pub mod Stores
pub mod Evaluator
pub mod Database
pub mod Graph
pub mod Toolkit
pub mod Groups
pub mod PartialStore
pub mod Reachability
pub mod Ltl
