-- ===== src/Tests.antt =====
-- Runs of the model on small inputs, and the theorems at concrete data.
pub mod Samples
pub mod Validity
pub mod Cabinet
mod Enrichment
mod RawFiles
mod Storage
mod Responses
mod Passes
mod Days
mod Requests
mod Chains
mod Settings
mod Deletions
