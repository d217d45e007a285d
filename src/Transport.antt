-- ===== src/Transport.antt =====
-- The transport of components (pkg/transport): which downloaders, processors and uploaders handle a
-- resource, the messages between them, and the pipeline that runs them.
pub mod Filters
pub mod Config
pub mod Message
pub mod Pipeline
