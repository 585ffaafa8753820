-- ===== src/Page/Carried.antt =====
-- EncodePage (budget/v1alpha1/page.go) of an observation that NodeBudgetObservation.Validate
-- (budget/v1alpha1/nodebudget.go) accepts: every row of the table can be carried.
pub mod Words
pub mod Getters
pub mod Blocks
pub mod SignalWords
pub mod Slots
pub mod Bands
pub mod Platforms
pub mod Parts
pub mod Rows
pub mod Valid
