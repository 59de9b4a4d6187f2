-- ===== src/Http11.antt =====
-- The HTTP/1.1 writer and the HTTP/1.1 reader together: message_sink_11.cpp and
-- message_source_11.cpp.
pub mod Hex
pub mod Chunks
