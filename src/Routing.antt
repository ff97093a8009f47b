-- ===== src/Routing.antt =====
-- services/routing.py: from the tables of a statement to the physical tables that it may read.
pub mod Decision
pub mod Factors
pub mod Resolve
pub mod Sound
pub mod Loop
pub mod Ambiguous
