-- ===== src/Aggregator.antt =====
-- harness/aggregator.py: runs the canonical validators in order, normalises their results and
-- builds the verification artifact. A validator is a record of its name, its subsystem and its
-- `validate`; the registered classes of harness/validators.py are the parameter `validators`.
pub mod Types
pub mod Inputs
pub mod Registration
pub mod Normalize
pub mod Collect
pub mod Artifact
pub mod Pipeline
pub mod Entries
pub mod Outcome
pub mod Report
