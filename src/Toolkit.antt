-- ===== src/Toolkit.antt =====
-- The containers of src/toolkit: IdContainer, UnionSet and the two merges of src/toolkit/utils.h, and the
-- cache of src/toolkit/query_cache.h.
pub mod IdContainer
pub mod UnionSet
pub mod Merges
pub mod QueryCache
mod Tests
