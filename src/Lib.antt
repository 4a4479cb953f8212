-- ===== src/Lib.antt =====
-- Unlimited OCR in C: a verification library for the Python part of the repository, which plans
-- and writes converted model files, names their tensors, reads quantization configs, and parses the
-- text that the model generates.
--
-- The parts, and the files that model them:
--   Registry     src/unlimitedocr_c/tensor_registry.py. Ids (Ids), the regular expressions as matchers
--                (Patterns), the entry of each checkpoint name (Names, Entries), and
--                `build_tensor_registry` (Build). Names are lists of code points.
--   QuantCfg     src/unlimitedocr_c/quant_cfg.py. The values of YAML (Yaml), configs and their queries
--                (Types), and `_parse_config` (Parse).
--   Convert      src/unlimitedocr_c/convert.py. Payload sizes and `_align_up` (Sizes), the plans
--                (Types), `_make_tensor_plan` (Plan), and `_layout_dry_run_file` (Layout). It uses
--                the families of the registry and the quantization config. Experts is
--                `_validate_moe_expert_interleaved_layout`. Structs and Files are what it uses of
--                `struct` and of files; Records has the directories that `write_uocr_model` writes,
--                their reading and the comparison with a plan (Views); Streams converts tensors in
--                chunks, to fp16, Q8_0 and Q4_0.
--   Variants     src/unlimitedocr_c/model_variants.py, with the environment as a function.
--   Parsing      src/unlimitedocr_c/parsing.py. Records and errors (Types, Errors), scanning (Scan),
--                block headers (Metadata), both formats and `parse_ocr` (Document).
--   Frontend     src/unlimitedocr_c/frontend.py, and the token cap of src/unlimitedocr_c/ocr.py. Records and
--                token counts (Types), prompts (Prompts), token sequences (Sequence), crops (Crops)
--                and the `prepare_` functions (Requests), on image sizes instead of pixels.
--   Api          src/unlimitedocr_c/api.py. The window loop of `stream_pages` (Stream), the life of the
--                native engine in `UnlimitedOCR` (Engine), the search for a model's file (Resolve)
--                and its download and conversion (Download), with what `write_uocr_model` does to
--                files. It prepares requests with Frontend.
--   Ffi          src/unlimitedocr_c/ffi.py. `as_c_request` and its checks (Requests), and the native
--                calls of `Engine` (Session). It takes the requests that Frontend prepares.
--   Prelude      what all of them share: Boolean tests, lists over the native numbers, integers,
--                texts, and exceptions as a result type.
--   Examples     runs on concrete inputs.
-- Python's exceptions are values of `Result`, dictionaries are association lists or functions from
-- keys, and integers are natural numbers where the code has only those.
--
-- Loops that do not recur on a list take fuel: the layout loop one unit for each tensor, the
-- conversion loops one for each row or byte, the parser's
-- loops one more than the length of the text, the loop of a page stream one more than the images.
-- That is enough, as each round passes over a tensor, a character, a row, a byte or an image.
--
-- Calls on one object follow one another, as they hold its lock; sequences of them are relations
-- with a constructor for each method.
--
-- Parameters: the native library, as functions from the calls made so far; how an image loads and
-- how an engine fails to open; the file system with its paths, and a download with its conversion;
-- the tokenizer's `encode`, arithmetic on floats and the order of a sorted set; Python's table of
-- decimal digits; `int`, `str`, `strip` and `lower`; and of the parser white space, the JSON decoder
-- and arithmetic on its numbers. Where a theorem needs more than their types, a record such as
-- `IsPython` states what Python documents.
--
-- Not modelled: the C, Objective-C and Metal sources, library loading, memory and profile reports,
-- the download itself, directories and files that cannot be made, renamed or removed during a
-- conversion, reading safetensors and config files, statistics of a conversion, profiling, and the
-- tools that compare with reference runs. The loop of `write_uocr_model` over the tensors is not
-- joined to Streams: Records takes what it writes behind the metadata as given, and Download whether
-- it succeeds.
pub mod Prelude
pub mod Registry
pub mod QuantCfg
pub mod Parsing
pub mod Variants
pub mod Frontend
pub mod Api
pub mod Ffi
pub mod Examples
pub mod Convert
