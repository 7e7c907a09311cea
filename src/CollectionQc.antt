-- ===== src/CollectionQc.antt =====
-- internal/collectionqc/runner.go: the review of one Collection checkpoint. A turn of the model
-- session is what its tool calls do to the verdict recorder; the prompts that start a turn are left
-- out, since a session may answer anything to any of them.
pub mod Recorder
pub mod Review
