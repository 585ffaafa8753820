-- ===== src/Page.antt =====
-- budget/v1alpha1/page.go: the node budget page, its layout, its encoder and its writer.
pub mod Bytes
pub mod Snapshot
pub mod Mirror
pub mod Field
pub mod Fields
pub mod Layout
pub mod Order
pub mod Encode
pub mod Writes
pub mod Written
pub mod Encoded
pub mod Carried
pub mod Success
pub mod Notify
pub mod Writer
