-- ===== src/PathOram.antt =====
-- include/oram/path_oram and src/path_oram: the Path ORAM protocol.
pub mod Buckets
pub mod Storage
pub mod Server
pub mod Stash
pub mod Client
pub mod BucketMessages
pub mod Writes
pub mod Padding
pub mod Invariant
pub mod Serving
pub mod PathBuckets
pub mod Step
pub mod Refinement
pub mod Start
