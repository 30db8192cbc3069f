-- ===== src/Tests.antt =====
-- Runs of the model on the inputs of tests/, and the theorems at concrete inputs.
mod Render
mod Witness
