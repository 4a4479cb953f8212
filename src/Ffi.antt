-- ===== src/Ffi.antt =====
-- src/unlimitedocr_c/ffi.py: requests on their way to the native library, and its engine handle.
pub mod Requests
pub mod Session
