-- ===== src/Examples.antt =====
-- Tests of the definitions on concrete sets, and the theorems at concrete inputs.
pub mod Intervals
pub mod HyperCubes
pub mod Operators
pub mod World
pub mod Policies
pub mod Networks
pub mod Values
