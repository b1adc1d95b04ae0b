-- ===== src/NameTable.antt =====
-- The names of threads: `FixedName` and the two tables from a thread id to a module name
-- (include/oneplog/internal/fixed_name.hpp, direct_mapping_table.hpp, array_mapping_table.hpp,
-- platform_lookup_table.hpp).
pub mod FixedName
pub mod Direct
pub mod Array
pub mod DirectLookup
pub mod ArrayFind
pub mod ArrayLookup
pub mod Platform
mod Tests
