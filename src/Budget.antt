-- ===== src/Budget.antt =====
-- budget/v1alpha1: the node budget contract, its vocabulary, its records and its policies.
pub mod Vocab
pub mod Types
pub mod Ladder
pub mod Policy
pub mod Select
pub mod Observation
pub mod Validate
pub mod Annotation
