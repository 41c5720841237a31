-- ===== src/Gzip.antt =====
-- gziphandler.go: the gzip middleware.
pub mod Encodings
pub mod Writer
pub mod Flushing
pub mod Small
pub mod Stream
pub mod Coded
pub mod Delivery
pub mod Hijacking
pub mod Handler
