-- ===== src/Pipeline.antt =====
-- packages/cv-engine/cv_engine: the data contracts and the analytics stages.
pub mod Floats
pub mod Types
pub mod PeopleCounter
pub mod IntrusionDetector
pub mod ZoneAnalyzer
