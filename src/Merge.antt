-- ===== src/Merge.antt =====
-- merge_pipeline.py: the batch that merges open pull requests.
pub mod Pipeline
pub mod Gate
pub mod Account
pub mod Tests
