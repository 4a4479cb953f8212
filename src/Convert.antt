-- ===== src/Convert.antt =====
-- src/unlimitedocr_c/convert.py: planning, writing and reading of the `.uocr` file. `Types` has the
-- plans, `Sizes` the byte counts, `Plan` the plan of one tensor, `Layout` is `_layout_dry_run_file`,
-- and `Experts` `_validate_moe_expert_interleaved_layout`. `Structs` packs and unpacks records,
-- `Files` is a file's bytes and position, `Records` writes the sections and reads a tensor back, and
-- `Streams` converts a tensor's values chunk by chunk.
pub mod Types
pub mod Sizes
pub mod Streams
pub mod Records
pub mod Files
pub mod Structs
pub mod Plan
pub mod Experts
pub mod Layout
