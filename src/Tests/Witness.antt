-- ===== src/Tests/Witness.antt =====
-- The theorems at concrete inputs.
mod Expressions
mod Statements
mod Collected
mod Texts
mod Programs
mod Queries
