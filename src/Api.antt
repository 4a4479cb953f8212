-- ===== src/Api.antt =====
-- src/unlimitedocr_c/api.py: the `UnlimitedOCR` class. `Stream` is `stream_pages`, `Engine` the life
-- of the native engine, `Resolve` is `resolve_model_path`, and
-- `Download` is `_download_and_convert_source_model`.
pub mod Stream
pub mod Engine
pub mod Resolve
pub mod Download
