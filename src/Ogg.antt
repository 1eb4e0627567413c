-- ===== src/Ogg.antt =====
-- ogg.py: Ogg pages, the Opus headers, and the duration of a stream.
pub mod Bytes
pub mod Page
pub mod Split
pub mod Utf8
pub mod Headers
pub mod Audio
