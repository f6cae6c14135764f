-- ===== src/Verilator.antt =====
-- The simulated RTL and the code that drives it: src/verilator.
pub mod Runner
