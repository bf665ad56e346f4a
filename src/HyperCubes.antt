-- ===== src/HyperCubes.antt =====
-- CanonicalHyperCubeSet (nca/CoreDS/CanonicalHyperCubeSet.py).
pub mod Elem
pub mod Layers
pub mod Points
pub mod Grows
pub mod Union
pub mod Combine
pub mod Dimensions
pub mod Operators
pub mod Reduce
pub mod InPlace
pub mod SingleCube
pub mod IntervalElem
