-- ===== src/Jobs.antt =====
-- The background jobs: catchment/jobs, and catchment/classification/placeholder.py.
pub mod Stages
pub mod Pipeline
pub mod Polling
pub mod Tests
