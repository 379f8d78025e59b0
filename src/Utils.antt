-- ===== src/Utils.antt =====
-- src/tm_utils.h and src/tm_utils.c: time windows, the URL-safe alphabet of a JWT, templates, and
-- the checks and rewritings of URL paths.
pub mod Timestamp
pub mod Base64
pub mod Template
pub mod PathCheck
pub mod Genericize
