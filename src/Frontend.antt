-- ===== src/Frontend.antt =====
-- src/unlimitedocr_c/frontend.py: requests prepared for the engine. `Types` has presets, views and
-- requests, `Prompts` the prompt templates, `Sequence` the token sequence and its image mask,
-- `Crops` the crop grid and boxes, `Requests` the three `prepare_` functions.
pub mod Types
pub mod Prompts
pub mod Sequence
pub mod Crops
pub mod Requests
