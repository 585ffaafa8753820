-- ===== src/Artifact.antt =====
-- artifact/v1: the file paths and the media types that an artifact may carry.
pub mod Path
pub mod MediaType
pub mod Allow
