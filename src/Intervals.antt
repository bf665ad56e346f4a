-- ===== src/Intervals.antt =====
-- CanonicalIntervalSet (nca/CoreDS/CanonicalIntervalSet.py): the class of intervals, the two binary
-- searches, insertion, and the set operations, each in a module with its proofs below it.
pub mod Interval
pub mod Canonical
pub mod Search
pub mod Add
pub mod Sets
