-- ===== src/Streaming.antt =====
-- packages/cv-engine/cv_engine/streaming: frame storage and capture.
pub mod Buffer
