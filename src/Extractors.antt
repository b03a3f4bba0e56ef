-- ===== src/Extractors.antt =====
-- What the handlers extract from a request: src/extractors.
pub mod Auth
pub mod Pagination
