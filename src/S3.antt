-- ===== src/S3.antt =====
-- internal/s3: the upload of results to an object store. Retry is its retry policy.
pub mod Retry
