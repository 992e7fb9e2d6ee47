-- ===== src/Classification.antt =====
-- catchment/classification: slugs, the parser of the model's answer, and the decision path.
pub mod Slug
pub mod Types
pub mod Prompt
pub mod Service
pub mod Tests
