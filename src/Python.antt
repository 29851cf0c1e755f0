-- ===== src/Python.antt =====
-- The part of Python that the package runs on: exceptions as results, the values of the dynamic
-- language, and UTF-8 (`str.encode`, `bytes.decode`).
pub mod Result
pub mod Utf8
pub mod Value
