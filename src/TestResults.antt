-- ===== src/TestResults.antt =====
-- hack/lib/testresults.go: the flake quarantine applied to a stream of test events.
pub mod Strings
pub mod Lines
pub mod Ids
pub mod Lexer
pub mod Registry
pub mod Collector
pub mod Evaluate
pub mod Run
