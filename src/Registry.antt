-- ===== src/Registry.antt =====
-- src/unlimitedocr_c/tensor_registry.py: the stable tensor ids shared by the converter and the C
-- runtime. `Types` has the enums and the entry, `Ids` the id arithmetic, `Names` the recognition of
-- checkpoint names, `Build` the registry itself.
pub mod Types
pub mod Ids
pub mod Patterns
pub mod Names
pub mod Entries
pub mod Build
