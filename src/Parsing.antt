-- ===== src/Parsing.antt =====
-- src/unlimitedocr_c/parsing.py: parsing of the model's layout output. `Types` has the records, the
-- errors and what the code takes from Python, `Scan` the text scanning and regular expressions,
-- `Metadata` is `_metadata`, `Document` has `_parse_v1`, `_parse_v2` and `parse_ocr`. A position is
-- kept as an offset together with the text from there on.
pub mod Types
pub mod Scan
pub mod Errors
pub mod Metadata
pub mod Document
