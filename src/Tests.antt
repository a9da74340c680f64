-- ===== src/Tests.antt =====
-- Tests: concrete documents, runs and files, and the theorems at them.
mod Aggregation
mod Documents
mod Plans
mod Kernel
mod Stages
mod Sources
mod SyscallTable
